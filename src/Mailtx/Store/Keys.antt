-- ===== src/Mailtx/Store/Keys.antt =====
-- The keys of the pending legs (the primary key and the index on `external_id` of
-- mailtx/src/transfer.rs).
use mailmux.Base.{
  ==_iff, ==_ne, Bool, Has, Has-append, Has-append_left, Has-of-select, Has-select, Has-snoc, List,
  Option, String, [], any, any-Has, ap, arith, false, if◌then◌else◌, inl, inr, nat_eq, none, not,
  option_eq, refl, some, string_eq, suc, sym, true, ℕ, ◌++◌, ◌<◌, ◌∙◌, ◌∷◌, ◌≡◌, ◌≢◌, ◌⊎◌,
}
use mailmux.Mailtx.Store.{
  InsertLeg, PendingStore, PendingTransfer, delete_leg, has_external, insert_leg, is_row, new_leg,
}

pub record IsKeyed (s : PendingStore) : Type 0 where
  pub unique : (a b : PendingTransfer) → Has a s.rows → Has b s.rows → a.id ≡ b.id → a ≡ b
  pub below : (a : PendingTransfer) → Has a s.rows → a.id < s.next_row
  pub once :
      (a b : PendingTransfer) (e : String)
      → Has a s.rows
      → Has b s.rows
      → a.external_id ≡ some e
      → b.external_id ≡ some e
      → a ≡ b

pub delete_leg-Has :
    (id : ℕ) (s : PendingStore) (a : PendingTransfer) → Has a (delete_leg id s).rows → Has a s.rows
unfolding delete_leg
delete_leg-Has id s a m = (Has-of-select (λ r. not (is_row id r)) a s.rows m).0

-- A row of another id stays.
pub Has-delete_leg :
    (id : ℕ) (s : PendingStore) (a : PendingTransfer)
    → Has a s.rows
    → a.id ≢ id
    → Has a (delete_leg id s).rows
unfolding delete_leg
Has-delete_leg id s a m n =
    Has-select (λ r. not (is_row id r)) a s.rows m (ap not (==_ne a.id id n))

pub delete_leg-IsKeyed : (id : ℕ) (s : PendingStore) → IsKeyed s → IsKeyed (delete_leg id s)
unfolding delete_leg
delete_leg-IsKeyed id s k = record {
  unique = λ a b m n. k.unique a b (delete_leg-Has id s a m) (delete_leg-Has id s b n);
  below = λ a m. k.below a (delete_leg-Has id s a m);
  once = λ a b e m n. k.once a b e (delete_leg-Has id s a m) (delete_leg-Has id s b n);
}

no_external :
    (external : Option String) (e : String) (rows : List PendingTransfer) (a : PendingTransfer)
    → external ≡ some e
    → any (has_external external) rows ≡ false
    → Has a rows
    → a.external_id ≡ some e
    → ⊥
no_external none e rows a p h m q = cc p
no_external (some e') e rows a p h m q =
    let t : any (has_external (some e')) rows ≡ true =
      any-Has (has_external (some e')) a rows m ((==_iff a.external_id (some e')).1 (q ∙ sym p)) in
    cc (sym h ∙ t)

pub external_self :
    (o : Option String) (e : String) (r : PendingTransfer)
    → o ≡ some e
    → r.external_id ≡ o
    → has_external o r ≡ true
external_self none e r p q = absurd (cc p)
external_self (some e') e r p q = (==_iff r.external_id (some e')).1 q

module _ (now : ℕ) (args : InsertLeg) (s : PendingStore) where
  row : PendingTransfer
  row = new_leg now s.next_row args

  longer : PendingStore
  longer = record s { rows = s.rows ++ (row ∷ []); next_row = suc s.next_row }

  longer-Has : (a : PendingTransfer) → Has a longer.rows → Has a s.rows ⊎ (a ≡ row)
  unfolding longer
  longer-Has a m = elim (Has-append a s.rows (row ∷ []) m) [
    | inl old ↦ inl old
    | inr new ↦ elim new [ inl e ↦ inr e | inr nothing ↦ absurd nothing ]
  ]

  longer-IsKeyed : any (has_external args.external_id) s.rows ≡ false → IsKeyed s → IsKeyed longer
  unfolding row longer
  longer-IsKeyed free k = record {
    unique = λ a b m n e. same a b e (longer-Has a m) (longer-Has b n);
    below = λ a m. bound a (longer-Has a m);
    once = λ a b e m n p q. single a b e p q (longer-Has a m) (longer-Has b n);
  }
    where
      fresh : (a : PendingTransfer) → Has a s.rows → a.id ≡ s.next_row → ⊥
      fresh a m e = absurd (omega (arith, k.below a m, e))

      same :
          (a b : PendingTransfer)
          → a.id ≡ b.id
          → Has a s.rows ⊎ (a ≡ row)
          → Has b s.rows ⊎ (b ≡ row)
          → a ≡ b
      same a b e (inl m) (inl n) = k.unique a b m n e
      same a b e (inl m) (inr n) = absurd (fresh a m (e ∙ ap (λ (x : PendingTransfer). x.id) n))
      same a b e (inr m) (inl n) = absurd (fresh b n (sym e ∙ ap (λ (x : PendingTransfer). x.id) m))
      same a b e (inr m) (inr n) = m ∙ sym n

      bound : (a : PendingTransfer) → Has a s.rows ⊎ (a ≡ row) → a.id < suc s.next_row
      bound a (inl m) = omega (arith, k.below a m)
      bound a (inr m) = omega (arith, ap (λ (x : PendingTransfer). x.id) m)

      clash :
          (a b : PendingTransfer) (e : String)
          → a.external_id ≡ some e
          → b.external_id ≡ some e
          → Has a s.rows
          → b ≡ row
          → ⊥
      clash a b e p q m n =
          no_external args.external_id e s.rows a
            (sym (ap (λ (x : PendingTransfer). x.external_id) n) ∙ q) free m p

      single :
          (a b : PendingTransfer) (e : String)
          → a.external_id ≡ some e
          → b.external_id ≡ some e
          → Has a s.rows ⊎ (a ≡ row)
          → Has b s.rows ⊎ (b ≡ row)
          → a ≡ b
      single a b e p q (inl m) (inl n) = k.once a b e m n p q
      single a b e p q (inl m) (inr n) = absurd (clash a b e p q m n)
      single a b e p q (inr m) (inl n) = absurd (clash b a e q p n m)
      single a b e p q (inr m) (inr n) = m ∙ sym n

  pub insert_leg-IsKeyed : IsKeyed s → IsKeyed (insert_leg now args s).1
  unfolding insert_leg longer row
  insert_leg-IsKeyed k = go (any (has_external args.external_id) s.rows) refl
    where
      go :
          (b : Bool)
          → any (has_external args.external_id) s.rows ≡ b
          → (let r : Bool × PendingStore = if b then (false, s) else (true, longer) in IsKeyed r.1)
      go true h = k
      go false h = longer-IsKeyed h k

  -- After an insert a row with the external id is there.
  pub insert_leg-any :
      (e : String)
      → args.external_id ≡ some e
      → any (has_external args.external_id) (insert_leg now args s).1.rows ≡ true
  unfolding insert_leg longer row
  insert_leg-any e p = go (any (has_external args.external_id) s.rows) refl
    where
      go :
          (b : Bool)
          → any (has_external args.external_id) s.rows ≡ b
          → (let r : Bool × PendingStore = if b then (false, s) else (true, longer) in
              any (has_external args.external_id) r.1.rows ≡ true)
      go true h = h
      go false h =
          any-Has (has_external args.external_id) row (s.rows ++ (row ∷ [])) (Has-snoc row s.rows)
            (external_self args.external_id e row p refl)

-- An insert keeps the rows.
pub insert_leg-kept :
    (now : ℕ) (args : InsertLeg) (s : PendingStore) (r : PendingTransfer)
    → Has r s.rows
    → Has r (insert_leg now args s).1.rows
unfolding insert_leg
insert_leg-kept now args s r m = go (any (has_external args.external_id) s.rows)
  where
    go :
        (b : Bool)
        → (let x : Bool × PendingStore = if b then (false, s) else (
          true,
          record s {
            rows = s.rows ++ (new_leg now s.next_row args ∷ []);
            next_row = suc s.next_row;
          },
        ) in
            Has r x.1.rows)
    go true = m
    go false = Has-append_left r s.rows (new_leg now s.next_row args ∷ []) m
