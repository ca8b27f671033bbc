-- ===== src/Backfill/Order.antt =====
-- Emails in the order of their ids, and what lies after an id (`ORDER BY id ASC` and `id > $1` of
-- `get_email_backfill_page` in mailmux/src/db/emails.rs).
use mailmux.Backfill.{last_id}
use mailmux.Base.{
  ==_iff, All, All-map, Bool, Distinct, List, [], any, ap, arith, drop, false, if◌then◌else◌, leb,
  leb_false→lt, leb→le, length, ltb, lt→ltb, nat_eq, option_eq, refl, select, string_eq, suc, sym,
  take, true, zero, ℕ, ◌&&◌, ◌<◌, ◌==◌, ◌∙◌, ◌∷◌, ◌≡◌, ◌≢◌, ◌≤◌,
}
use mailmux.Db.{EmailRecord}
use mailmux.Db.Emails.{insert_email, sort_emails}
use mailmux.Db.Invariant.{same_email}

abbrev pub Ascending : List EmailRecord → Type 0
Ascending [] = Unit
Ascending (e ∷ es) = All (λ f. e.id < f.id) es × Ascending es

-- `id > last`
abbrev pub is_beyond : ℕ → EmailRecord → Bool
is_beyond last e = ltb last e.id

All-insert_email {ℓ} :
    (P : EmailRecord → Type ℓ) (e : EmailRecord) (es : List EmailRecord)
    → P e
    → All P es
    → All P (insert_email e es)
unfolding insert_email
All-insert_email P e [] h k = (h, tt)
All-insert_email P e (f ∷ fs) h (k, t) = go (leb e.id f.id) (All-insert_email P e fs h t)
  where
    go :
        (b : Bool)
        → All P (insert_email e fs)
        → All P (if b then e ∷ f ∷ fs else f ∷ insert_email e fs)
    go true rest = (h, (k, t))
    go false rest = (k, rest)

insert_email-Ascending :
    (e : EmailRecord) (es : List EmailRecord)
    → All (λ f. e.id ≢ f.id) es
    → Ascending es
    → Ascending (insert_email e es)
unfolding insert_email
insert_email-Ascending e [] n h = (tt, tt)
insert_email-Ascending e (f ∷ fs) (n, ns) (h, t) =
    go (leb e.id f.id) refl (insert_email-Ascending e fs ns t)
  where
    go :
        (b : Bool)
        → leb e.id f.id ≡ b
        → Ascending (insert_email e fs)
        → Ascending (if b then e ∷ f ∷ fs else f ∷ insert_email e fs)
    go true q rest =
        let l : e.id < f.id = omega (arith, leb→le e.id f.id q, n) in
        (
          (l, All-map (λ g. f.id < g.id) (λ g. e.id < g.id) fs (λ g m. omega (arith, l, m)) h),
          (h, t),
        )
    go false q rest = (All-insert_email (λ g. f.id < g.id) e fs (leb_false→lt e.id f.id q) h, rest)

pub All-sort_emails {ℓ} :
    (P : EmailRecord → Type ℓ) (es : List EmailRecord) → All P es → All P (sort_emails es)
unfolding sort_emails
All-sort_emails P [] h = tt
All-sort_emails P (e ∷ es) (h, t) = All-insert_email P e (sort_emails es) h (All-sort_emails P es t)

differs :
    (e : EmailRecord) (es : List EmailRecord)
    → any (same_email e) es ≡ false
    → All (λ f. e.id ≢ f.id) es
differs e [] h = tt
differs e (f ∷ fs) h = (
  λ p. absurd (let t : (f.id == e.id) ≡ true = (==_iff f.id e.id).1 (sym p) in ground arith),
  differs e fs (ground arith),
)

-- Emails with distinct ids are in strictly ascending order once they are sorted.
pub sort_emails-Ascending :
    (es : List EmailRecord) → Distinct same_email es → Ascending (sort_emails es)
unfolding sort_emails
sort_emails-Ascending [] h = tt
sort_emails-Ascending (e ∷ es) (h, t) =
    insert_email-Ascending e (sort_emails es)
      (All-sort_emails (λ f. e.id ≢ f.id) es (differs e es h)) (sort_emails-Ascending es t)

select-insert_email :
    (last : ℕ) (e : EmailRecord) (es : List EmailRecord)
    → select (is_beyond last) (insert_email e es) ≡ (
        if is_beyond last e
        then insert_email e (select (is_beyond last) es)
        else select (is_beyond last) es)
unfolding insert_email
select-insert_email last e [] = ground arith
select-insert_email last e (f ∷ fs) = ground (arith, select-insert_email last e fs)

-- Sorting and leaving out what is not beyond an id may change places.
pub select-sort_emails :
    (last : ℕ) (es : List EmailRecord)
    → select (is_beyond last) (sort_emails es) ≡ sort_emails (select (is_beyond last) es)
unfolding sort_emails
select-sort_emails last [] = refl
select-sort_emails last (e ∷ es) =
    select-insert_email last e (sort_emails es) ∙ go (is_beyond last e) (select-sort_emails last es)
  where
    go :
        (b : Bool)
        → select (is_beyond last) (sort_emails es) ≡ sort_emails (select (is_beyond last) es)
        → (if b
            then insert_email e (select (is_beyond last) (sort_emails es))
            else select (is_beyond last) (sort_emails es))
          ≡ sort_emails (if b then e ∷ select (is_beyond last) es else select (is_beyond last) es)
    go true h = ap (insert_email e) h
    go false h = h

pub select-and {ℓ} :
    {A : Type ℓ} (p q : A → Bool) (xs : List A)
    → select (λ a. p a && q a) xs ≡ select p (select q xs)
select-and p q [] = refl
select-and p q (x ∷ xs) = ground (arith, select-and p q xs)

-- What is beyond a later id is beyond the earlier one.
pub select-select :
    (k last : ℕ) (es : List EmailRecord)
    → k ≤ last
    → select (is_beyond last) es ≡ select (is_beyond last) (select (is_beyond k) es)
select-select k last [] l = refl
select-select k last (e ∷ es) l = ground (arith, select-select k last es l)

pub select-All {ℓ} :
    {A : Type ℓ} (p : A → Bool) (xs : List A) → All (λ a. p a ≡ true) xs → select p xs ≡ xs
select-All p [] h = refl
select-All p (x ∷ xs) (h, t) = ground (arith, select-All p xs t)

pub select-passed {ℓ} :
    {A : Type ℓ} (p : A → Bool) (xs : List A) → All (λ a. p a ≡ true) (select p xs)
select-passed p [] = tt
select-passed p (x ∷ xs) = go (p x) refl (select-passed p xs)
  where
    go :
        (b : Bool)
        → p x ≡ b
        → All (λ a. p a ≡ true) (select p xs)
        → All (λ a. p a ≡ true) (if b then x ∷ select p xs else select p xs)
    go true h rest = (h, rest)
    go false h rest = rest

length-insert_email :
    (e : EmailRecord) (es : List EmailRecord) → length (insert_email e es) ≡ suc (length es)
unfolding insert_email
length-insert_email e [] = refl
length-insert_email e (f ∷ fs) = ground (arith, length-insert_email e fs)

pub length-sort_emails : (es : List EmailRecord) → length (sort_emails es) ≡ length es
unfolding sort_emails
length-sort_emails [] = refl
length-sort_emails (e ∷ es) =
    length-insert_email e (sort_emails es) ∙ ap suc (length-sort_emails es)

pub le-last_id :
    (e : EmailRecord) (es : List EmailRecord) → Ascending (e ∷ es) → e.id ≤ last_id e es
le-last_id e [] h = omega arith
le-last_id e (f ∷ fs) ((l, ls), h) = omega (arith, l, le-last_id f fs h)

All-take {ℓ κ} : {A : Type ℓ} (P : A → Type κ) (n : ℕ) (xs : List A) → All P xs → All P (take n xs)
All-take P zero xs h = tt
All-take P (suc n) [] h = tt
All-take P (suc n) (x ∷ xs) (h, t) = (h, All-take P n xs t)

pub take-Ascending : (n : ℕ) (es : List EmailRecord) → Ascending es → Ascending (take n es)
take-Ascending zero es h = tt
take-Ascending (suc n) [] h = tt
take-Ascending (suc n) (e ∷ es) (h, t) = (All-take (λ f. e.id < f.id) n es h, take-Ascending n es t)

pub drop-Ascending : (n : ℕ) (es : List EmailRecord) → Ascending es → Ascending (drop n es)
drop-Ascending zero es h = h
drop-Ascending (suc n) [] h = tt
drop-Ascending (suc n) (e ∷ es) (h, t) = drop-Ascending n es t

-- Beyond the last id of a page lies what follows the page.
pub select-last_id :
    (m : ℕ) (e : EmailRecord) (es : List EmailRecord)
    → Ascending (e ∷ es)
    → select (is_beyond (last_id e (take m es))) (e ∷ es) ≡ drop m es
select-last_id zero e es (h, t) = ground (
  arith,
  select-All (is_beyond e.id) es
      (All-map (λ f. e.id < f.id) (λ f. is_beyond e.id f ≡ true) es (λ f l. lt→ltb e.id f.id l) h),
)
select-last_id (suc m) e [] h = ground arith
select-last_id (suc m) e (f ∷ fs) ((l, ls), h) =
    let u : f.id ≤ last_id f (take m fs) =
      le-last_id f (take m fs) (take-Ascending (suc m) (f ∷ fs) h) in
    ground (arith, l, u, select-last_id m f fs h)
