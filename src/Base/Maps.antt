-- ===== src/Base/Maps.antt =====
-- std::map as a list that is sorted by its keys: a search stops at the first greater key.
use Prim.Native.Nat.{ℕ}
use mathlib.Core.Path.{◌≡◌}
use mathlib.Core.Logic.{◌⊎◌, inl, inr}
use mathlib.Core.Bool.{Bool, true, false}
use mathlib.Core.Option.{Option, none, some}
use mathlib.Core.List.{List, [], ◌∷◌}
use native.Mathlib.Omega.{arith}
use arch_xplore.Base.Tests.{ltb, if◌then◌else◌, Bool-cases}

-- The order of the keys, of which a map relies on these laws.
pub record Order (K : Type 0) : Type 0 where
  pub less : K → K → Bool
  pub asymmetric : (a b : K) → less a b ≡ true → less b a ≡ false
  pub transitive : (a b c : K) → less a b ≡ true → less b c ≡ true → less a c ≡ true
  pub between : (a b c : K) → less a b ≡ true → (less a c ≡ true) ⊎ (less c b ≡ true)

pub ltb-asymmetric : (a b : ℕ) → ltb a b ≡ true → ltb b a ≡ false
ltb-asymmetric a b h = ground arith

pub ltb-transitive : (a b c : ℕ) → ltb a b ≡ true → ltb b c ≡ true → ltb a c ≡ true
ltb-transitive a b c g h = ground arith

pub ltb-between : (a b c : ℕ) → ltb a b ≡ true → (ltb a c ≡ true) ⊎ (ltb c b ≡ true)
ltb-between a b c h = ground arith

abbrev pub native_order : Order ℕ
native_order = record {
  less = ltb;
  asymmetric = ltb-asymmetric;
  transitive = ltb-transitive;
  between = ltb-between;
}

module _ {K : Type 0} (o : Order K) where
  -- Two keys of which one is less.
  abbrev pub IsApart : K → K → Type 0
  IsApart j k = (o.less j k ≡ true) ⊎ (o.less k j ≡ true)

  pub irreflexive : (k : K) → o.less k k ≡ false
  irreflexive k = elim (Bool-cases (o.less k k)) [ inl b ↦ o.asymmetric k k b | inr b ↦ b ]

module _ {K V : Type 0} (o : Order K) where
  unfoldable pub find : K → List (K × V) → Option V
  find k [] = none
  find k ((l, v) ∷ m) = if o.less l k then find k m else if o.less k l then none else some v

  -- `f` applied to `m[k]`, which is a fresh value if there is none.
  unfoldable pub update : K → V → (V → V) → List (K × V) → List (K × V)
  update k fresh f [] = (k, f fresh) ∷ []
  update k fresh f ((l, v) ∷ m) =
      if o.less l k
      then (l, v) ∷ update k fresh f m
      else if o.less k l
      then (k, f fresh) ∷ (l, v) ∷ m
      else (l, f v) ∷ m

  abbrev pub or_fresh : V → Option V → V
  or_fresh fresh none = fresh
  or_fresh fresh (some v) = v

  -- An update is found at its key.
  pub find-update :
      (k : K) (fresh : V) (f : V → V) (m : List (K × V))
      → find k (update k fresh f m) ≡ some (f (or_fresh fresh (find k m)))
  unfolding find update
  find-update k fresh f [] = let i = irreflexive o k in ground arith
  find-update k fresh f ((l, v) ∷ m) = elim (Bool-cases (o.less l k)) [
    | inl below ↦ ground (arith, find-update k fresh f m)
    | inr b ↦ elim (Bool-cases (o.less k l)) [
      | inl above ↦ let i = irreflexive o k in ground arith
      | inr c ↦ ground arith
    ]
  ]

  -- At another key it changes nothing.
  pub find-update_ne :
      (j k : K) (fresh : V) (f : V → V) (m : List (K × V))
      → IsApart o j k
      → find j (update k fresh f m) ≡ find j m
  unfolding find update
  find-update_ne j k fresh f [] (inl h) = let a = o.asymmetric j k h in ground arith
  find-update_ne j k fresh f [] (inr h) = ground arith
  find-update_ne j k fresh f ((l, v) ∷ m) h = elim (Bool-cases (o.less l k)) [
    | inl below ↦ ground (arith, find-update_ne j k fresh f m h)
    | inr b ↦ elim (Bool-cases (o.less k l)) [
      | inl above ↦ elim h [
        | inl g ↦
            let t = o.transitive j k l g above in
            let a = o.asymmetric j k g in let c = o.asymmetric j l t in ground arith
        | inr g ↦ ground arith
      ]
      | inr c ↦ elim h [
        | inl g ↦ elim (o.between j k l g) [
          | inl x ↦ let a = o.asymmetric j l x in ground arith
          | inr x ↦ absurd (ground arith)
        ]
        | inr g ↦ let w = o.between k j l g in ground arith
      ]
    ]
  ]
