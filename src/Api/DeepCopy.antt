-- ===== src/Api/DeepCopy.antt =====
-- api/awi/v1alpha1/zz_generated.deepcopy.go. Its methods for the kinds differ in the type of the spec
-- only, so they are written once. The `DeepCopyInto` of metav1 and of the messages are parameters.
pub mod Separation
pub mod Kinds
use awi_catalyst_sdwan_opera.Base.{ℕ, Option, none, some, List}
use awi_catalyst_sdwan_opera.Memory.{Heap, GoType, plain, array, copy_pointer, pointer}

-- A kind's struct: `TM` is `TypeMeta`, `OM` is `ObjectMeta`, `SP` the spec and `ST` the status.
pub record Object (TM OM SP ST : Type 0) : Type 0 where
  pub type_meta : TM
  pub metadata : OM
  pub spec : SP
  pub status : ST

-- Its list, with the array of its items.
pub record ObjectList (TM LM : Type 0) : Type 0 where
  pub type_meta : TM
  pub list_meta : LM
  pub items : Option ℕ

-- What a cell may hold: a struct, an array of structs, a list, or something of another package.
pub data Cell (F TM OM LM SP ST : Type 0) : Type 0 where
  foreign : F → Cell F TM OM LM SP ST
  one : Object TM OM SP ST → Cell F TM OM LM SP ST
  many : List (Object TM OM SP ST) → Cell F TM OM LM SP ST
  whole : ObjectList TM LM → Cell F TM OM LM SP ST

-- What a list stands for.
pub record Listing (TM AL AX : Type 0) : Type 0 where
  pub type_meta : TM
  pub list_meta : AL
  pub items : AX

-- A `runtime.Object`: nil, or a pointer, which may be nil.
pub data RuntimeObject : Type 0 where
  nothing : RuntimeObject
  object : Option ℕ → RuntimeObject

-- `if c := in.DeepCopy(); c != nil { return c }; return nil`
abbrev pub as_object : {C : Type 0} → Option ℕ × Heap C → RuntimeObject × Heap C
as_object (none, h) = (nothing, h)
as_object (some c, h) = (object (some c), h)

-- `AppConnectionSpec`, a struct around a message.
pub record WrappedSpec (V : Type 0) : Type 0 where
  pub app_connection : V

module _ {C V A : Type 0} (message : GoType C V A) where
  unfoldable pub spec_deep_copy_into : WrappedSpec V → Heap C → WrappedSpec V × Heap C
  spec_deep_copy_into spec h =
      let (conn, h') = message.deep_copy_into spec.app_connection h in
      (record { app_connection = conn }, h')

  abbrev pub wrapped_spec : GoType C (WrappedSpec V) A
  unfolding spec_deep_copy_into
  wrapped_spec = record {
    read = λ h spec. message.read h spec.app_connection;
    Within = λ lo hi h spec. message.Within lo hi h spec.app_connection;
    deep_copy_into = spec_deep_copy_into;
  }

  -- `DeepCopy` of the spec and of a status, in memories whose cells may hold them.
  abbrev pub spec_deep_copy :
      (WrappedSpec V → C) → (C → Option (WrappedSpec V)) → Option ℕ → Heap C → Option ℕ × Heap C
  spec_deep_copy = copy_pointer wrapped_spec

abbrev pub status_deep_copy :
    {C ST : Type 0} → (ST → C) → (C → Option ST) → Option ℕ → Heap C → Option ℕ × Heap C
status_deep_copy = copy_pointer plain

module _ {F TM OM LM SP ST AM AL AS : Type 0} (object_meta : GoType (Cell F TM OM LM SP ST) OM AM)
    (list_meta : GoType (Cell F TM OM LM SP ST) LM AL)
    (spec : GoType (Cell F TM OM LM SP ST) SP AS) where
  abbrev pub Memory : Type 0
  Memory = Heap (Cell F TM OM LM SP ST)

  -- `*out = *in`, then the fields that point to something.
  unfoldable pub object_deep_copy_into : Object TM OM SP ST → Memory → Object TM OM SP ST × Memory
  object_deep_copy_into x h =
      let (metadata', h₁) = object_meta.deep_copy_into x.metadata h in
      let (spec', h₂) = spec.deep_copy_into x.spec h₁ in
      (record x { metadata = metadata'; spec = spec' }, h₂)

  unfoldable pub object_type :
      GoType (Cell F TM OM LM SP ST) (Object TM OM SP ST) (Object TM AM AS ST)
  unfolding object_deep_copy_into
  object_type = record {
    read = λ h x. record {
      type_meta = x.type_meta;
      metadata = object_meta.read h x.metadata;
      spec = spec.read h x.spec;
      status = x.status;
    };
    Within = λ lo hi h x. object_meta.Within lo hi h x.metadata × spec.Within lo hi h x.spec;
    deep_copy_into = object_deep_copy_into;
  }

  abbrev pub as_one : Cell F TM OM LM SP ST → Option (Object TM OM SP ST)
  as_one (foreign _) = none
  as_one (one x) = some x
  as_one (many _) = none
  as_one (whole _) = none

  abbrev pub as_many : Cell F TM OM LM SP ST → Option (List (Object TM OM SP ST))
  as_many (foreign _) = none
  as_many (one _) = none
  as_many (many xs) = some xs
  as_many (whole _) = none

  abbrev pub as_whole : Cell F TM OM LM SP ST → Option (ObjectList TM LM)
  as_whole (foreign _) = none
  as_whole (one _) = none
  as_whole (many _) = none
  as_whole (whole l) = some l

  abbrev pub items_type :
      GoType (Cell F TM OM LM SP ST) (Option ℕ) (Option (Option (List (Object TM AM AS ST))))
  items_type = pointer (array object_type) many as_many

  unfoldable pub list_deep_copy_into : ObjectList TM LM → Memory → ObjectList TM LM × Memory
  list_deep_copy_into l h =
      let (meta, h₁) = list_meta.deep_copy_into l.list_meta h in
      let (items', h₂) = items_type.deep_copy_into l.items h₁ in
      (record l { list_meta = meta; items = items' }, h₂)

  unfoldable pub list_type :
      GoType
        (Cell F TM OM LM SP ST)
        (ObjectList TM LM)
        (Listing TM AL (Option (Option (List (Object TM AM AS ST)))))
  unfolding list_deep_copy_into
  list_type = record {
    read = λ h l. record {
      type_meta = l.type_meta;
      list_meta = list_meta.read h l.list_meta;
      items = items_type.read h l.items;
    };
    Within = λ lo hi h l. list_meta.Within lo hi h l.list_meta × items_type.Within lo hi h l.items;
    deep_copy_into = list_deep_copy_into;
  }

  abbrev pub object_deep_copy : Option ℕ → Memory → Option ℕ × Memory
  object_deep_copy = copy_pointer object_type one as_one

  abbrev pub list_deep_copy : Option ℕ → Memory → Option ℕ × Memory
  list_deep_copy = copy_pointer list_type whole as_whole

  abbrev pub object_deep_copy_object : Option ℕ → Memory → RuntimeObject × Memory
  object_deep_copy_object p h = as_object (object_deep_copy p h)

  abbrev pub list_deep_copy_object : Option ℕ → Memory → RuntimeObject × Memory
  list_deep_copy_object p h = as_object (list_deep_copy p h)
