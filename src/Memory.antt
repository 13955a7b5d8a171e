-- ===== src/Memory.antt =====
-- Go's memory, for values that are shared by pointers: cells under locations that are handed out in
-- turn and never taken back.
pub mod Copies
pub mod Pointers
use awi_catalyst_sdwan_opera.Base.{
  ℕ, suc, ◌≤◌, ◌<◌, ◌≡◌, Option, none, some, List, [], ◌∷◌, map, if◌then◌else◌,
}
use awi_catalyst_sdwan_opera.Base.Numbers.{same_number}

pub record Heap (C : Type 0) : Type 0 where
  pub size : ℕ
  pub cell : ℕ → Option C

-- `new` and `make`
unfoldable pub alloc : {C : Type 0} → C → Heap C → ℕ × Heap C
alloc c h = (
  h.size,
  record { size = suc h.size; cell = λ l. if same_number l h.size then some c else h.cell l },
)

-- The cells from `lo` on and below `hi` are the same.
abbrev pub Agree : {C : Type 0} → ℕ → ℕ → Heap C → Heap C → Type 0
Agree lo hi h h' = (l : ℕ) → lo ≤ l → l < hi → h'.cell l ≡ h.cell l

-- A Go type: what a value of it stands for with all that it points to, that all it points to lies
-- between two locations, and its `DeepCopyInto`, which gives the value that it leaves in `out`.
pub record GoType (C V A : Type 0) : Type 1 where
  pub read : Heap C → V → A
  pub Within : ℕ → ℕ → Heap C → V → Type 0
  pub deep_copy_into : V → Heap C → V × Heap C

-- A type with no pointers.
abbrev pub plain : {C A : Type 0} → GoType C A A
plain = record { read = λ h v. v; Within = λ lo hi h v. Unit; deep_copy_into = λ v h. (v, h) }

-- The elements of an array, copied in order.
module _ {C V A : Type 0} (t : GoType C V A) where
  unfoldable pub copy_all : List V → Heap C → List V × Heap C
  copy_all [] h = ([], h)
  copy_all (v ∷ vs) h =
      let (v', h₁) = t.deep_copy_into v h in let (vs', h₂) = copy_all vs h₁ in (v' ∷ vs', h₂)

  unfoldable pub AllWithin : ℕ → ℕ → Heap C → List V → Type 0
  AllWithin lo hi h [] = Unit
  AllWithin lo hi h (v ∷ vs) = t.Within lo hi h v × AllWithin lo hi h vs

  abbrev pub array : GoType C (List V) (List A)
  array = record { read = λ h vs. map (t.read h) vs; Within = AllWithin; deep_copy_into = copy_all }

-- A pointer or a slice, which may be nil. `unbox` finds what its cell holds; a location that holds
-- nothing of the type is left as it is.
module _ {C V A : Type 0} (t : GoType C V A) (box : V → C) (unbox : C → Option V) where
  abbrev pub held : Option C → Option V
  held none = none
  held (some c) = unbox c

  abbrev pub read_held : Heap C → Option V → Option A
  read_held h none = none
  read_held h (some v) = some (t.read h v)

  abbrev pub WithinHeld : ℕ → ℕ → Heap C → Option V → Type 0
  WithinHeld lo hi h none = ⊥
  WithinHeld lo hi h (some v) = t.Within lo hi h v

  abbrev pub copy_held : ℕ → Option V → Heap C → Option ℕ × Heap C
  copy_held p none h = (some p, h)
  copy_held p (some v) h =
      let (v', h₁) = t.deep_copy_into v h in let (q, h₂) = alloc (box v') h₁ in (some q, h₂)

  abbrev pub read_pointer : Heap C → Option ℕ → Option (Option A)
  read_pointer h none = none
  read_pointer h (some p) = some (read_held h (held (h.cell p)))

  abbrev pub PointerWithin : ℕ → ℕ → Heap C → Option ℕ → Type 0
  PointerWithin lo hi h none = Unit
  PointerWithin lo hi h (some p) = (lo ≤ p) × (p < hi) × WithinHeld lo hi h (held (h.cell p))

  -- `if in == nil { return nil }`, and a copy into a new cell.
  abbrev pub copy_pointer : Option ℕ → Heap C → Option ℕ × Heap C
  copy_pointer none h = (none, h)
  copy_pointer (some p) h = copy_held p (held (h.cell p)) h

  abbrev pub pointer : GoType C (Option ℕ) (Option (Option A))
  pointer = record { read = read_pointer; Within = PointerWithin; deep_copy_into = copy_pointer }
