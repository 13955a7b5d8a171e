-- ===== src/Memory/Copies.antt =====
-- Copies that share nothing with the original.
use awi_catalyst_sdwan_opera.Base.{ℕ, ◌≤◌, ◌≡◌, refl, ◌∙◌, some, arith}
use awi_catalyst_sdwan_opera.Memory.{Heap, alloc, Agree, GoType, plain}

module _ {C V A : Type 0} (t : GoType C V A) where
  -- What a value stands for, and where it points to, depends on the cells it points to only.
  pub record IsStable : Type 0 where
    pub agreeing :
        (lo hi : ℕ) (h h' : Heap C) (v : V)
        → t.Within lo hi h v
        → Agree lo hi h h'
        → (t.read h' v ≡ t.read h v) × t.Within lo hi h' v
    pub widened :
        (lo lo' hi hi' : ℕ) (h : Heap C) (v : V)
        → lo' ≤ lo
        → hi ≤ hi'
        → t.Within lo hi h v
        → t.Within lo' hi' h v

  -- `v'` in `h'` is a copy of `v` in `h`: it stands for the same, it lies in new cells, and no old
  -- cell is changed.
  pub record Copied (h : Heap C) (v v' : V) (h' : Heap C) : Type 0 where
    pub grows : h.size ≤ h'.size
    pub keeps : Agree 0 h.size h h'
    pub reads : t.read h' v' ≡ t.read h v
    pub fresh : t.Within h.size h'.size h' v'

  abbrev pub CopiedBy : Heap C → V → V × Heap C → Type 0
  CopiedBy h v (v', h') = Copied h v v' h'

  -- `DeepCopyInto` copies every value that lies in the memory.
  abbrev pub IsDeep : Type 0
  IsDeep = (h : Heap C) (v : V) → t.Within 0 h.size h v → CopiedBy h v (t.deep_copy_into v h)

  module _ (stable : IsStable) where
    -- A copy is one still when more memory is taken.
    pub Copied-later :
        (h h₁ h₂ : Heap C) (v v' : V)
        → Copied h v v' h₁
        → h₁.size ≤ h₂.size
        → Agree 0 h₁.size h₁ h₂
        → Copied h v v' h₂
    Copied-later h h₁ h₂ v v' c more kept =
        let (same, within) =
          stable.agreeing h.size h₁.size h₁ h₂ v' c.fresh
            (λ l _ below. kept l (omega arith) below) in
        let grown = c.grows in
        record {
          grows = omega arith;
          keeps = λ l at below. kept l at (omega arith) ∙ c.keeps l at below;
          reads = same ∙ c.reads;
          fresh = stable.widened h.size h.size h₁.size h₂.size h₂ v' (omega arith) more within;
        }

    -- A value lies in a memory that has grown, and stands for the same.
    pub grown-Within :
        (h h₁ : Heap C) (v : V)
        → t.Within 0 h.size h v
        → h.size ≤ h₁.size
        → Agree 0 h.size h h₁
        → t.Within 0 h₁.size h₁ v
    grown-Within h h₁ v within more kept =
        let (_, there) = stable.agreeing 0 h.size h h₁ v within kept in
        stable.widened 0 0 h.size h₁.size h₁ v (omega arith) more there

    -- A copy that is made after more memory was taken.
    pub Copied-earlier :
        (h h₁ h₂ : Heap C) (v v' : V)
        → t.Within 0 h.size h v
        → h.size ≤ h₁.size
        → Agree 0 h.size h h₁
        → Copied h₁ v v' h₂
        → Copied h v v' h₂
    Copied-earlier h h₁ h₂ v v' within more kept c =
        let (same, _) = stable.agreeing 0 h.size h h₁ v within kept in
        let grown = c.grows in
        record {
          grows = omega arith;
          keeps = λ l at below. c.keeps l at (omega arith) ∙ kept l at below;
          reads = c.reads ∙ same;
          fresh = stable.widened h₁.size h.size h₂.size h₂.size h₂ v' more (omega arith) c.fresh;
        }

-- One copy after another, of two values that lie in the memory.
pub two_copies :
    {C V A V' A' : Type 0} (t : GoType C V A) (t' : GoType C V' A')
    → IsStable t
    → IsStable t'
    → IsDeep t
    → (h : Heap C) (v : V) (v' : V')
    → ((h₁ : Heap C) → t'.Within 0 h₁.size h₁ v' → CopiedBy t' h₁ v' (t'.deep_copy_into v' h₁))
    → t.Within 0 h.size h v
    → t'.Within 0 h.size h v'
    → (let (u, h₁) = t.deep_copy_into v h in
        let (u', h₂) = t'.deep_copy_into v' h₁ in Copied t h v u h₂ × Copied t' h v' u' h₂)
two_copies t t' stable stable' deep h v v' deep' within within' =
    let (u, h₁) = t.deep_copy_into v h in
    let (u', h₂) = t'.deep_copy_into v' h₁ in
    let c : Copied t h v u h₁ = deep h v within in
    let c' : Copied t' h₁ v' u' h₂ =
      deep' h₁ (grown-Within t' stable' h h₁ v' within' c.grows c.keeps) in
    (
      Copied-later t stable h h₁ h₂ v u c c'.grows c'.keeps,
      Copied-earlier t' stable' h h₁ h₂ v' u' within' c.grows c.keeps c',
    )

pub alloc-Agree : {C : Type 0} (c : C) (h : Heap C) → Agree 0 h.size h (alloc c h).1
unfolding alloc
alloc-Agree c h l at below = grind arith

pub alloc-cell : {C : Type 0} (c : C) (h : Heap C) → (let (q, h') = alloc c h in h'.cell q ≡ some c)
unfolding alloc
alloc-cell c h = grind arith

module _ {C V A : Type 0} (t : GoType C V A) where
  -- The copy stands for what the original does. It goes on to do so whatever is written to the old
  -- cells, and the original whatever is written to the new ones.
  abbrev pub Independent : Heap C → V → V × Heap C → Type 0
  Independent h v (v', h') =
      (t.read h' v' ≡ t.read h v)
      × ((h₂ : Heap C) → Agree 0 h.size h' h₂ → t.read h₂ v ≡ t.read h v)
      × ((h₂ : Heap C) → Agree h.size h'.size h' h₂ → t.read h₂ v' ≡ t.read h v)

  pub deep-Independent :
      IsStable t
      → IsDeep t
      → (h : Heap C) (v : V) → t.Within 0 h.size h v
      → Independent h v (t.deep_copy_into v h)
  deep-Independent stable deep h v within =
      let (v', h') = t.deep_copy_into v h in
      let c : Copied t h v v' h' = deep h v within in
      (
        c.reads,
        λ h₂ kept.
            (stable.agreeing 0 h.size h h₂ v within
              (λ l at below. kept l at below ∙ c.keeps l at below)).0,
        λ h₂ kept. (stable.agreeing h.size h'.size h' h₂ v' c.fresh kept).0 ∙ c.reads,
      )

pub plain-IsStable : {C A : Type 0} → IsStable (plain {C = C} {A = A})
plain-IsStable = record {
  agreeing = λ lo hi h h' v within kept. (refl, tt);
  widened = λ lo lo' hi hi' h v down up within. tt;
}

pub plain-IsDeep : {C A : Type 0} → IsDeep (plain {C = C} {A = A})
plain-IsDeep h v within = record {
  grows = omega arith;
  keeps = λ l at below. refl;
  reads = refl;
  fresh = tt;
}
