-- ===== src/ExpireStore/Expired.antt =====
-- The batch of expired rows.
use native.Mathlib.Omega.{arith}
use Prim.Native.Nat.{min}
use mattermost_plugin_messag.Base.{
  ℕ, zero, suc, ◌≤◌, ◌≡◌, refl, Bool, true, false, List, [], ◌∷◌, keep, take, length, length-take,
}
use mattermost_plugin_messag.Int64.{ℤ, ◌≤ℤ◌}
use mattermost_plugin_messag.Database.{Entry, Table}
use mattermost_plugin_messag.ExpireStore.{count, OrderBy, is_expired, expired_rows, IsSorted}

module _ {ℓ} {A : Type ℓ} where
  pub count-take-le : (p : A → Bool) (n : ℕ) (l : List A) → count p (take n l) ≤ count p l
  unfolding keep
  count-take-le p zero l = omega arith
  count-take-le p (suc n) [] = omega arith
  count-take-le p (suc n) (x ∷ l) = ground (arith, count-take-le p n l)

  pub count_all : (l : List A) → count (λ _. true) l ≡ length l
  unfolding keep
  count_all [] = refl
  count_all (x ∷ l) = omega (arith, count_all l)

take-IsSorted : (n : ℕ) (l : List Entry) → IsSorted l → IsSorted (take n l)
take-IsSorted zero l h = tt
take-IsSorted (suc n) [] h = tt
take-IsSorted (suc zero) (x ∷ l) h = tt
take-IsSorted (suc (suc n)) (x ∷ []) h = tt
take-IsSorted (suc (suc n)) (x ∷ y ∷ l) h = (h.0, take-IsSorted (suc n) (y ∷ l) h.1)

≤ℤ_trans : (a b c : ℤ) → a ≤ℤ b → b ≤ℤ c → a ≤ℤ c
≤ℤ_trans a b c h k = ground arith

tail-IsSorted : (x : Entry) (l : List Entry) → IsSorted (x ∷ l) → IsSorted l
tail-IsSorted x [] h = tt
tail-IsSorted x (y ∷ l) h = h.1

-- After a row that has not expired at `t` none has.
none_later :
    (t : ℤ) (x : Entry) (l : List Entry)
    → IsSorted (x ∷ l)
    → is_expired t x ≡ false
    → count (is_expired t) l ≡ 0
unfolding keep
none_later t x [] h k = refl
none_later t x (y ∷ l) h k =
    ground (arith, none_later t y l h.1, ≤ℤ_trans x.expire_at y.expire_at t h.0)

-- The rows that have expired at `t` come first.
count-take_sorted :
    (t : ℤ) (n : ℕ) (l : List Entry)
    → IsSorted l
    → count (is_expired t) (take n l) ≡ min n (count (is_expired t) l)
unfolding keep
count-take_sorted t zero l h = omega arith
count-take_sorted t (suc n) [] h = omega arith
count-take_sorted t (suc n) (x ∷ l) h = ground (
  arith,
  count-take_sorted t n l (tail-IsSorted x l h),
  none_later t x l h,
  count-take-le (is_expired t) n l,
)

-- A row that has expired at `t` has at any later time.
count-expired_later :
    (t now : ℤ) (rows : Table)
    → t ≤ℤ now
    → count (is_expired t) (keep (is_expired now) rows) ≡ count (is_expired t) rows
unfolding keep
count-expired_later t now [] h = refl
count-expired_later t now (r ∷ rows) h =
    ground (arith, count-expired_later t now rows h, ≤ℤ_trans r.expire_at t now)

module _ (order : OrderBy) (now : ℤ) (limit : ℕ) (rows : Table) where
  pub expired_rows-IsSorted : IsSorted (expired_rows order now limit rows)
  unfolding expired_rows
  expired_rows-IsSorted = take-IsSorted limit _ (order.sort_sorts _)

  -- Each row of the batch is a row of the index that has expired, no more often than there.
  pub count-expired_rows-le :
      (p : Entry → Bool)
      → count p (expired_rows order now limit rows) ≤ count p (keep (is_expired now) rows)
  unfolding expired_rows
  count-expired_rows-le p =
      rw (order.sort_keeps p (keep (is_expired now) rows)) at
        (count-take-le p limit (order.sort (keep (is_expired now) rows)))

  -- The oldest rows come first: at any earlier time `t` the batch has all rows that had expired,
  -- or as many as the limit allows.
  pub count-expired_rows :
      (t : ℤ)
      → t ≤ℤ now
      → count (is_expired t) (expired_rows order now limit rows)
        ≡ min limit (count (is_expired t) rows)
  unfolding expired_rows
  count-expired_rows t h =
      let expired = keep (is_expired now) rows in
      omega (
        arith,
        count-take_sorted t limit (order.sort expired) (order.sort_sorts expired),
        order.sort_keeps (is_expired t) expired,
        count-expired_later t now rows h,
      )

  -- The batch has all expired rows, or as many as the limit allows.
  pub length-expired_rows :
      length (expired_rows order now limit rows) ≡ min limit (count (is_expired now) rows)
  unfolding expired_rows
  length-expired_rows =
      let expired = keep (is_expired now) rows in
      omega (
        arith,
        length-take limit (order.sort expired),
        count_all (order.sort expired),
        count_all expired,
        order.sort_keeps (λ _. true) expired,
      )
