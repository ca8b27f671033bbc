-- ===== src/Mailtx/Store/Once.antt =====
-- Replays of a leg (`insert` of mailtx/src/transfer.rs), with other work on the store in between.
use mailmux.Base.{
  ==_iff, Bool, Has, List, Option, String, [], any, any-Has, false, inl, inr, nat_eq, none,
  option_eq, refl, some, string_eq, sym, true, ℕ, ◌==◌, ◌||◌, ◌∙◌, ◌∷◌, ◌≡◌, ◌≢◌,
}
use mailmux.Mailtx.Store.{
  InsertLeg, PendingStore, PendingTransfer, delete_leg, has_external, insert_leg,
}
use mailmux.Mailtx.Store.Keys.{Has-delete_leg, external_self, insert_leg-any, insert_leg-kept}

-- What runs do to the store: they store legs and delete rows.
pub data Change : Type 0 where
  inserts : ℕ → InsertLeg → Change
  deletes : ℕ → Change

abbrev pub changed : List Change → PendingStore → PendingStore
changed [] s = s
changed (inserts now args ∷ cs) s = changed cs (insert_leg now args s).1
changed (deletes id ∷ cs) s = changed cs (delete_leg id s)

-- The row of that id is not deleted.
abbrev pub Spares : ℕ → List Change → Type 0
Spares id [] = Unit
Spares id (inserts now args ∷ cs) = Spares id cs
Spares id (deletes i ∷ cs) = (id ≢ i) × Spares id cs

Has-changed :
    (r : PendingTransfer) (cs : List Change) (s : PendingStore)
    → Spares r.id cs
    → Has r s.rows
    → Has r (changed cs s).rows
Has-changed r [] s h m = m
Has-changed r (inserts now args ∷ cs) s h m =
    Has-changed r cs (insert_leg now args s).1 h (insert_leg-kept now args s r m)
Has-changed r (deletes i ∷ cs) s (n, h) m =
    Has-changed r cs (delete_leg i s) h (Has-delete_leg i s r m n)

inserted_row :
    (external : Option String) (e : String) (rows : List PendingTransfer)
    → external ≡ some e
    → any (has_external external) rows ≡ true
    → (r : PendingTransfer) × (Has r rows × (r.external_id ≡ some e))
inserted_row external e [] p h = absurd (cc h)
inserted_row none e (r ∷ rows) p h = absurd (cc p)
inserted_row (some e') e (r ∷ rows) p h =
    go (r.external_id == some e') refl (inserted_row (some e') e rows p) h
  where
    go :
        (b : Bool)
        → (r.external_id == some e') ≡ b
        → (any (has_external (some e')) rows ≡ true
            → (x : PendingTransfer) × (Has x rows × (x.external_id ≡ some e)))
        → (b || any (has_external (some e')) rows) ≡ true
        → (x : PendingTransfer) × (Has x (r ∷ rows) × (x.external_id ≡ some e))
    go true found later h = (r, (inl refl, (==_iff r.external_id (some e')).0 found ∙ p))
    go false missing later h = (let x = later h in (x.0, (inr x.1.0, x.1.1)))

-- A leg that is pending under an external id is not stored again: after an insert with that id, and
-- any further inserts and deletes that leave the row of that id in place, an insert with the same id,
-- whatever else it holds, answers false and changes nothing.
pub insert_leg-changed :
    (now : ℕ) (args : InsertLeg) (s : PendingStore) (e : String) (cs : List Change) (later : ℕ)
    (args' : InsertLeg)
    → args.external_id ≡ some e
    → args'.external_id ≡ some e
    → ((r : PendingTransfer)
        → Has r (insert_leg now args s).1.rows
        → r.external_id ≡ some e
        → Spares r.id cs)
    → insert_leg later args' (changed cs (insert_leg now args s).1)
      ≡ (false, changed cs (insert_leg now args s).1)
unfolding insert_leg
insert_leg-changed now args s e cs later args' p q spared =
    let found =
      inserted_row args.external_id e (insert_leg now args s).1.rows p
        (insert_leg-any now args s e p) in
    let stays : Has found.0 (changed cs (insert_leg now args s).1).rows =
      Has-changed found.0 cs (insert_leg now args s).1 (spared found.0 found.1.0 found.1.1)
        found.1.0 in
    let once : any (has_external args'.external_id) (changed cs (insert_leg now args s).1).rows
        ≡ true =
      any-Has (has_external args'.external_id) found.0 (changed cs (insert_leg now args s).1).rows
        stays (external_self args'.external_id e found.0 q (found.1.1 ∙ sym q)) in
    rw once refl
