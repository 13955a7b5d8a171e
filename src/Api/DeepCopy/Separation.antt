-- ===== src/Api/DeepCopy/Separation.antt =====
-- A deep copy shares no memory with the original.
use awi_catalyst_sdwan_opera.Base.{ℕ, refl, Option}
use awi_catalyst_sdwan_opera.Memory.{Heap, GoType, array, pointer, PointerWithin}
use awi_catalyst_sdwan_opera.Memory.Copies.{
  IsStable, IsDeep, Independent, two_copies, deep-Independent,
}
use awi_catalyst_sdwan_opera.Memory.Pointers.{
  array-IsStable, array-IsDeep, pointer-IsStable, pointer-IsDeep,
}
use awi_catalyst_sdwan_opera.Api.DeepCopy.{
  Cell, one, many, whole, spec_deep_copy_into, wrapped_spec, object_deep_copy_into, object_type,
  as_one, as_many, as_whole, items_type, list_deep_copy_into, list_type, object_deep_copy,
  list_deep_copy,
}

module _ {C V A : Type 0} (message : GoType C V A) (stable : IsStable message)
    (deep : IsDeep message) where
  pub wrapped_spec-IsStable : IsStable (wrapped_spec message)
  unfolding wrapped_spec
  wrapped_spec-IsStable = record {
    agreeing = λ lo hi h h' v within kept. stable.agreeing lo hi h h' v.app_connection within kept;
    widened = λ lo lo' hi hi' h v down up within.
        stable.widened lo lo' hi hi' h v.app_connection down up within;
  }

  pub wrapped_spec-IsDeep : IsDeep (wrapped_spec message)
  unfolding wrapped_spec spec_deep_copy_into
  wrapped_spec-IsDeep h v within =
      let c = deep h v.app_connection within in
      record { grows = c.grows; keeps = c.keeps; reads = c.reads; fresh = c.fresh }

module _ {F TM OM LM SP ST AM AL AS : Type 0} (object_meta : GoType (Cell F TM OM LM SP ST) OM AM)
    (list_meta : GoType (Cell F TM OM LM SP ST) LM AL) (spec : GoType (Cell F TM OM LM SP ST) SP AS)
    (meta_stable : IsStable object_meta) (list_stable : IsStable list_meta)
    (spec_stable : IsStable spec) (meta_deep : IsDeep object_meta) (list_deep : IsDeep list_meta)
    (spec_deep : IsDeep spec) where
  object_type-IsStable : IsStable (object_type object_meta list_meta spec)
  unfolding object_type
  object_type-IsStable = record {
    agreeing = λ lo hi h h' x within kept.
        let (same, there) = meta_stable.agreeing lo hi h h' x.metadata within.0 kept in
        let (same', there') = spec_stable.agreeing lo hi h h' x.spec within.1 kept in
        (cc (same, same'), (there, there'));
    widened = λ lo lo' hi hi' h x down up within. (
      meta_stable.widened lo lo' hi hi' h x.metadata down up within.0,
      spec_stable.widened lo lo' hi hi' h x.spec down up within.1,
    );
  }

  object_type-IsDeep : IsDeep (object_type object_meta list_meta spec)
  unfolding object_type object_deep_copy_into
  object_type-IsDeep h x within =
      let (c, c') =
        two_copies object_meta spec meta_stable spec_stable meta_deep h x.metadata x.spec
          (λ h₁. spec_deep h₁ x.spec) within.0 within.1 in
      record {
        grows = c.grows;
        keeps = c.keeps;
        reads = cc (c.reads, c'.reads);
        fresh = (c.fresh, c'.fresh);
      }

  items_type-IsStable : IsStable (items_type object_meta list_meta spec)
  items_type-IsStable =
      pointer-IsStable (array (object_type object_meta list_meta spec)) many
        (as_many object_meta list_meta spec)
        (array-IsStable (object_type object_meta list_meta spec) object_type-IsStable)

  items_type-IsDeep : IsDeep (items_type object_meta list_meta spec)
  items_type-IsDeep =
      let objects = object_type object_meta list_meta spec in
      pointer-IsDeep (array objects) many (as_many object_meta list_meta spec)
        (array-IsStable objects object_type-IsStable)
        (array-IsDeep objects object_type-IsStable object_type-IsDeep) (λ xs. refl)

  list_type-IsStable : IsStable (list_type object_meta list_meta spec)
  unfolding list_type
  list_type-IsStable = record {
    agreeing = λ lo hi h h' l within kept.
        let (same, there) = list_stable.agreeing lo hi h h' l.list_meta within.0 kept in
        let (same', there') = items_type-IsStable.agreeing lo hi h h' l.items within.1 kept in
        (cc (same, same'), (there, there'));
    widened = λ lo lo' hi hi' h l down up within. (
      list_stable.widened lo lo' hi hi' h l.list_meta down up within.0,
      items_type-IsStable.widened lo lo' hi hi' h l.items down up within.1,
    );
  }

  list_type-IsDeep : IsDeep (list_type object_meta list_meta spec)
  unfolding list_type list_deep_copy_into
  list_type-IsDeep h l within =
      let (c, c') =
        two_copies list_meta (items_type object_meta list_meta spec) list_stable items_type-IsStable
          list_deep h l.list_meta l.items (λ h₁. items_type-IsDeep h₁ l.items) within.0 within.1 in
      record {
        grows = c.grows;
        keeps = c.keeps;
        reads = cc (c.reads, c'.reads);
        fresh = (c.fresh, c'.fresh);
      }

  -- `DeepCopy` of an object that lies in the memory gives one that stands for the same and shares
  -- nothing with it.
  pub object_deep_copy-Independent :
      (h : Heap (Cell F TM OM LM SP ST)) (p : Option ℕ)
      → PointerWithin
          (object_type object_meta list_meta spec)
          one
          (as_one object_meta list_meta spec)
          0
          h.size
          h
          p
      → Independent
          (pointer (object_type object_meta list_meta spec) one (as_one object_meta list_meta spec))
          h
          p
          (object_deep_copy object_meta list_meta spec p h)
  object_deep_copy-Independent h p within =
      let objects = object_type object_meta list_meta spec in
      let unbox = as_one object_meta list_meta spec in
      deep-Independent (pointer objects one unbox)
        (pointer-IsStable objects one unbox object_type-IsStable)
        (pointer-IsDeep objects one unbox object_type-IsStable object_type-IsDeep (λ x. refl)) h p
        within

  -- Where the `DeepCopyInto` of the metadata and of the specs copy all that their argument points to,
  -- `DeepCopy` of a list of objects that lies in the memory does too: what it returns stands for the
  -- same list, whatever is later written to its cells leaves the original as it is, and whatever is
  -- later written to the cells of the original leaves the copy as it is.
  pub list_deep_copy-Independent :
      (h : Heap (Cell F TM OM LM SP ST)) (p : Option ℕ)
      → PointerWithin
          (list_type object_meta list_meta spec)
          whole
          (as_whole object_meta list_meta spec)
          0
          h.size
          h
          p
      → Independent
          (pointer
            (list_type object_meta list_meta spec)
            whole
            (as_whole object_meta list_meta spec))
          h
          p
          (list_deep_copy object_meta list_meta spec p h)
  list_deep_copy-Independent h p within =
      let lists = list_type object_meta list_meta spec in
      let unbox = as_whole object_meta list_meta spec in
      deep-Independent (pointer lists whole unbox)
        (pointer-IsStable lists whole unbox list_type-IsStable)
        (pointer-IsDeep lists whole unbox list_type-IsStable list_type-IsDeep (λ l. refl)) h p
        within
