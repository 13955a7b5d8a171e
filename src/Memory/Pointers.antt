-- ===== src/Memory/Pointers.antt =====
-- Arrays and pointers are copied deeply where what they hold is.
use awi_catalyst_sdwan_opera.Base.{
  ℕ, ◌≤◌, ◌<◌, ◌≡◌, refl, sym, ap, ap₂, subst, ◌∙◌, Option, none, some, List, [], ◌∷◌, map, arith,
}
use awi_catalyst_sdwan_opera.Memory.{
  Heap, alloc, Agree, GoType, AllWithin, copy_all, array, held, read_held, WithinHeld, copy_held,
  read_pointer, PointerWithin, pointer,
}
use awi_catalyst_sdwan_opera.Memory.Copies.{
  IsStable, Copied, CopiedBy, IsDeep, Copied-later, two_copies, alloc-Agree, alloc-cell,
}

module _ {C V A : Type 0} (t : GoType C V A) (stable : IsStable t) where
  array_agreeing :
      (lo hi : ℕ) (h h' : Heap C) (vs : List V)
      → AllWithin t lo hi h vs
      → Agree lo hi h h'
      → (map (t.read h') vs ≡ map (t.read h) vs) × AllWithin t lo hi h' vs
  unfolding AllWithin
  array_agreeing lo hi h h' [] within kept = (refl, tt)
  array_agreeing lo hi h h' (v ∷ vs) within kept =
      let (same, there) = stable.agreeing lo hi h h' v within.0 kept in
      let (rest, all) = array_agreeing lo hi h h' vs within.1 kept in
      (ap₂ ◌∷◌ same rest, (there, all))

  array_widened :
      (lo lo' hi hi' : ℕ) (h : Heap C) (vs : List V)
      → lo' ≤ lo
      → hi ≤ hi'
      → AllWithin t lo hi h vs
      → AllWithin t lo' hi' h vs
  unfolding AllWithin
  array_widened lo lo' hi hi' h [] down up within = tt
  array_widened lo lo' hi hi' h (v ∷ vs) down up within = (
    stable.widened lo lo' hi hi' h v down up within.0,
    array_widened lo lo' hi hi' h vs down up within.1,
  )

  pub array-IsStable : IsStable (array t)
  array-IsStable = record { agreeing = array_agreeing; widened = array_widened }

  pub array-IsDeep : IsDeep t → IsDeep (array t)
  unfolding AllWithin copy_all
  array-IsDeep deep h [] within = record {
    grows = omega arith;
    keeps = λ l at below. refl;
    reads = refl;
    fresh = tt;
  }
  array-IsDeep deep h (v ∷ vs) within =
      let (first, rest) =
        two_copies t (array t) stable array-IsStable deep h v vs (λ h₁. array-IsDeep deep h₁ vs)
          within.0 within.1 in
      record {
        grows = rest.grows;
        keeps = rest.keeps;
        reads = ap₂ ◌∷◌ first.reads rest.reads;
        fresh = (first.fresh, rest.fresh);
      }

module _ {C V A : Type 0} (t : GoType C V A) (box : V → C) (unbox : C → Option V)
    (stable : IsStable t) where
  held_agreeing :
      (lo hi : ℕ) (h h' : Heap C) (o : Option V)
      → WithinHeld t box unbox lo hi h o
      → Agree lo hi h h'
      → (read_held t box unbox h' o ≡ read_held t box unbox h o) × WithinHeld t box unbox lo hi h' o
  held_agreeing lo hi h h' (some v) within kept =
      let (same, there) = stable.agreeing lo hi h h' v within kept in (ap some same, there)
  held_agreeing lo hi h h' none within kept = absurd within

  held_widened :
      (lo lo' hi hi' : ℕ) (h : Heap C) (o : Option V)
      → lo' ≤ lo
      → hi ≤ hi'
      → WithinHeld t box unbox lo hi h o
      → WithinHeld t box unbox lo' hi' h o
  held_widened lo lo' hi hi' h (some v) down up within =
      stable.widened lo lo' hi hi' h v down up within
  held_widened lo lo' hi hi' h none down up within = absurd within

  pointer_agreeing :
      (lo hi : ℕ) (h h' : Heap C) (p : Option ℕ)
      → PointerWithin t box unbox lo hi h p
      → Agree lo hi h h'
      → (read_pointer t box unbox h' p ≡ read_pointer t box unbox h p)
        × PointerWithin t box unbox lo hi h' p
  pointer_agreeing lo hi h h' none within kept = (refl, tt)
  pointer_agreeing lo hi h h' (some p) (at, below, inside) kept =
      let cell = kept p at below in
      let (same, there) = held_agreeing lo hi h h' (held t box unbox (h.cell p)) inside kept in
      (
        ap some (ap (λ c. read_held t box unbox h' (held t box unbox c)) cell ∙ same),
        (
          at,
          below,
          subst (λ c. WithinHeld t box unbox lo hi h' (held t box unbox c)) (sym cell) there,
        ),
      )

  pointer_widened :
      (lo lo' hi hi' : ℕ) (h : Heap C) (p : Option ℕ)
      → lo' ≤ lo
      → hi ≤ hi'
      → PointerWithin t box unbox lo hi h p
      → PointerWithin t box unbox lo' hi' h p
  pointer_widened lo lo' hi hi' h none down up within = tt
  pointer_widened lo lo' hi hi' h (some p) down up (at, below, inside) = (
    omega arith,
    omega arith,
    held_widened lo lo' hi hi' h (held t box unbox (h.cell p)) down up inside,
  )

  pub pointer-IsStable : IsStable (pointer t box unbox)
  pointer-IsStable = record { agreeing = pointer_agreeing; widened = pointer_widened }

  module _ (deep : IsDeep t) (unboxed : (v : V) → unbox (box v) ≡ some v) where
    copy_held-Copied :
        (h : Heap C) (p : ℕ) (o : Option V)
        → held t box unbox (h.cell p) ≡ o
        → WithinHeld t box unbox 0 h.size h o
        → CopiedBy (pointer t box unbox) h (some p) (copy_held t box unbox p o h)
    unfolding alloc
    copy_held-Copied h p none e within = absurd within
    copy_held-Copied h p (some v) e within =
        let (v', h₁) = t.deep_copy_into v h in
        let (q, h₂) = alloc (box v') h₁ in
        let c : Copied t h v v' h₁ = deep h v within in
        let more : h₁.size < h₂.size = omega arith in
        let found : held t box unbox (h₂.cell q) ≡ some v' =
          ap (held t box unbox) (alloc-cell (box v') h₁) ∙ unboxed v' in
        let later = Copied-later t stable h h₁ h₂ v v' c (omega arith) (alloc-Agree (box v') h₁) in
        let below : q < h₂.size = more in
        let at : h.size ≤ q = c.grows in
        record {
          grows = later.grows;
          keeps = later.keeps;
          reads = ap some (
              ap (read_held t box unbox h₂) found
              ∙ ap some later.reads
              ∙ sym (ap (read_held t box unbox h) e));
          fresh =
              (at, below, subst (WithinHeld t box unbox h.size h₂.size h₂) (sym found) later.fresh);
        }

    pub pointer-IsDeep : IsDeep (pointer t box unbox)
    pointer-IsDeep h none within = record {
      grows = omega arith;
      keeps = λ l at below. refl;
      reads = refl;
      fresh = tt;
    }
    pointer-IsDeep h (some p) (_, _, inside) =
        copy_held-Copied h p (held t box unbox (h.cell p)) refl inside
