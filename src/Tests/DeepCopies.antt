-- ===== src/Tests/DeepCopies.antt =====
-- A list of one object, whose metadata points to a text.
use awi_catalyst_sdwan_opera.Base.{ℕ, zero, suc, String, refl, Option, none, some, [], ◌∷◌, arith}
use awi_catalyst_sdwan_opera.Memory.{Heap, GoType, plain, pointer, AllWithin, PointerWithin}
use awi_catalyst_sdwan_opera.Memory.Copies.{
  IsStable, IsDeep, Independent, plain-IsStable, plain-IsDeep,
}
use awi_catalyst_sdwan_opera.Memory.Pointers.{pointer-IsStable, pointer-IsDeep}
use awi_catalyst_sdwan_opera.Api.DeepCopy.{
  Object, ObjectList, Cell, foreign, one, many, whole, object_type, list_type, as_whole,
  list_deep_copy,
}
use awi_catalyst_sdwan_opera.Api.DeepCopy.Separation.{list_deep_copy-Independent}

abbrev C : Type 0
C = Cell String String (Option ℕ) String String (Unit {0})

abbrev as_text : C → Option String
as_text (foreign s) = some s
as_text (one _) = none
as_text (many _) = none
as_text (whole _) = none

abbrev meta : GoType C (Option ℕ) (Option (Option String))
meta = pointer plain foreign as_text

meta-IsStable : IsStable meta
meta-IsStable = pointer-IsStable plain foreign as_text plain-IsStable

meta-IsDeep : IsDeep meta
meta-IsDeep = pointer-IsDeep plain foreign as_text plain-IsStable plain-IsDeep (λ s. refl)

abbrev instance_object : Object String (Option ℕ) String (Unit {0})
instance_object = record { type_meta = "Instance"; metadata = some 0; spec = "i-1"; status = tt }

abbrev instance_list : ObjectList String String
instance_list = record { type_meta = "InstanceList"; list_meta = ""; items = some 1 }

abbrev cells : ℕ → Option C
cells zero = some (foreign "labels")
cells (suc zero) = some (many (instance_object ∷ []))
cells (suc (suc zero)) = some (whole instance_list)
cells (suc (suc (suc n))) = none

abbrev memory : Heap C
memory = record { size = 3; cell = cells }

in_memory :
    PointerWithin (list_type meta plain plain) whole (as_whole meta plain plain) 0 3 memory (some 2)
unfolding AllWithin list_type object_type
in_memory = (
  omega arith,
  omega arith,
  (tt, (omega arith, omega arith, (((omega arith, omega arith, tt), tt), tt))),
)

list_deep_copy-Independent_example :
    Independent
      (pointer (list_type meta plain plain) whole (as_whole meta plain plain))
      memory
      (some 2)
      (list_deep_copy meta plain plain (some 2) memory)
list_deep_copy-Independent_example =
    list_deep_copy-Independent meta plain plain meta-IsStable plain-IsStable plain-IsStable
      meta-IsDeep plain-IsDeep plain-IsDeep memory (some 2) in_memory
