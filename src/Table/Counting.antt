-- ===== src/Table/Counting.antt =====
-- Counting the entries of a map whose values pass a test.
use cria.Prelude.{
  ℕ, ◌+◌, String, ◌≡◌, refl, ap, ◌∙◌, Bool, Option, none, some, List, [], ◌∷◌, eq_iff, eq_refl,
  arith, if◌then◌else◌,
}
use cria.Table.Interface.{DashMap}
use cria.Table.Entries.{find, IsUnique, without, find-without, without-IsUnique, find-none-without}

abbrev pub weigh : {V : Type 0} → (V → Bool) → Option V → ℕ
weigh p none = 0
weigh p (some v) = if p v then 1 else 0

unfoldable pub tally : {V : Type 0} → (V → Bool) → List (String × V) → ℕ
tally p [] = 0
tally p ((k, v) ∷ l) = weigh p (some v) + tally p l

module _ {V : Type 0} (p : V → Bool) where
  pub tally-without :
      (k : String) (l : List (String × V))
      → IsUnique l
      → tally p l ≡ weigh p (find k l) + tally p (without k l)
  unfolding tally find without
  tally-without k [] u = refl
  tally-without k ((j, v) ∷ l) u =
      ground (arith, tally-without k l u.1, find-none-without k l, eq_iff j k)

  -- The head of a list of entries is found in a list that agrees with it.
  agree_tail :
      (k : String) (v : V) (l l' : List (String × V))
      → find k l ≡ none
      → ((j : String) → find j ((k, v) ∷ l) ≡ find j l')
      → (j : String) → find j l ≡ find j (without k l')
  unfolding find
  agree_tail k v l l' fresh h j = ground (arith, h j, find-without k j l', eq_iff k j)

  agree_head :
      (k : String) (v : V) (l l' : List (String × V))
      → ((j : String) → find j ((k, v) ∷ l) ≡ find j l')
      → find k l' ≡ some v
  unfolding find
  agree_head k v l l' h = ground (arith, h k, eq_refl k)

  -- The count depends on what is found under each key alone.
  pub tally-ext :
      (l l' : List (String × V))
      → IsUnique l
      → IsUnique l'
      → ((k : String) → find k l ≡ find k l')
      → tally p l ≡ tally p l'
  unfolding tally
  tally-ext [] [] u u' h = refl
  tally-ext [] ((k, v) ∷ l') u u' h = unfold find in ground (arith, h k, eq_refl k)
  tally-ext ((k, v) ∷ l) l' u u' h = omega (
    arith,
    ap (weigh p) (agree_head k v l l' h),
    tally-without k l' u',
    tally-ext l (without k l') u.1 (without-IsUnique k l' u') (agree_tail k v l l' u.0 h),
  )

module _ ⦃d : DashMap⦄ {V : Type 0} where
  dropped : (m : d.Map V) (k : String) → find k (without k (d.iter m)) ≡ none
  dropped m k = ground (arith, find-without k k (d.iter m), eq_refl k)

  inserted :
      (m : d.Map V) (k : String) (v : V) (j : String)
      → find j (d.iter (d.insert m k v)) ≡ find j ((k, v) ∷ without k (d.iter m))
  unfolding find
  inserted m k v j = ground (
    arith,
    d.find-iter (d.insert m k v) j,
    d.get-insert m k v j,
    find-without k j (d.iter m),
    d.find-iter m j,
  )

module _ ⦃d : DashMap⦄ {V : Type 0} (p : V → Bool) where
  -- `iter().filter(p).count()`.
  unfoldable pub count : d.Map V → ℕ
  count m = tally p (d.iter m)

  pub count-empty : count d.empty ≡ 0
  unfolding count tally
  count-empty =
      tally-ext p (d.iter d.empty) [] (d.iter-IsUnique d.empty) tt
        (λ k. unfold find in d.find-iter d.empty k ∙ d.get-empty k)

  -- A write under a key moves the count by what stood there and by what stands there now.
  pub count-insert :
      (m : d.Map V) (k : String) (v : V)
      → count (d.insert m k v) + weigh p (d.get m k) ≡ count m + weigh p (some v)
  unfolding count tally
  count-insert m k v = omega (
    arith,
    tally-ext p (d.iter (d.insert m k v)) ((k, v) ∷ without k (d.iter m))
        (d.iter-IsUnique (d.insert m k v))
        (dropped m k, without-IsUnique k (d.iter m) (d.iter-IsUnique m)) (inserted m k v),
    tally-without p k (d.iter m) (d.iter-IsUnique m),
    ap (weigh p) (d.find-iter m k),
  )
