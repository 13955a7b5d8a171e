-- ===== src/Api/DeepCopy/Kinds.antt =====
-- The methods of each kind in zz_generated.deepcopy.go.
use awi_catalyst_sdwan_opera.Base.{ℕ, String, Option}
use awi_catalyst_sdwan_opera.Memory.{Heap, GoType}
use awi_catalyst_sdwan_opera.Api.{InterNetworkDomainConnectionStatus}
use awi_catalyst_sdwan_opera.Api.DeepCopy.{
  Object, ObjectList, Cell, RuntimeObject, WrappedSpec, wrapped_spec, object_deep_copy_into,
  object_deep_copy, object_deep_copy_object, list_deep_copy_into, list_deep_copy,
  list_deep_copy_object,
}

pub record Copies (C X L : Type 0) : Type 0 where
  pub copy_into : X → Heap C → X × Heap C
  pub copy : Option ℕ → Heap C → Option ℕ × Heap C
  pub copy_object : Option ℕ → Heap C → RuntimeObject × Heap C
  pub list_copy_into : L → Heap C → L × Heap C
  pub list_copy : Option ℕ → Heap C → Option ℕ × Heap C
  pub list_copy_object : Option ℕ → Heap C → RuntimeObject × Heap C

module _ {F TM OM LM SP ST AM AL AS : Type 0} (object_meta : GoType (Cell F TM OM LM SP ST) OM AM)
    (list_meta : GoType (Cell F TM OM LM SP ST) LM AL)
    (spec : GoType (Cell F TM OM LM SP ST) SP AS) where
  abbrev pub copies : Copies (Cell F TM OM LM SP ST) (Object TM OM SP ST) (ObjectList TM LM)
  copies = record {
    copy_into = object_deep_copy_into object_meta list_meta spec;
    copy = object_deep_copy object_meta list_meta spec;
    copy_object = object_deep_copy_object object_meta list_meta spec;
    list_copy_into = list_deep_copy_into object_meta list_meta spec;
    list_copy = list_deep_copy object_meta list_meta spec;
    list_copy_object = list_deep_copy_object object_meta list_meta spec;
  }

-- The kinds whose spec is a message and which have no status.
module _ {F TM OM LM SP AM AL AS : Type 0}
    (object_meta : GoType (Cell F TM OM LM SP (Unit {0})) OM AM)
    (list_meta : GoType (Cell F TM OM LM SP (Unit {0})) LM AL)
    (message : GoType (Cell F TM OM LM SP (Unit {0})) SP AS) where
  abbrev pub instance_copies :
      Copies (Cell F TM OM LM SP (Unit {0})) (Object TM OM SP (Unit {0})) (ObjectList TM LM)
  instance_copies = copies object_meta list_meta message

  abbrev pub network_domain_copies :
      Copies (Cell F TM OM LM SP (Unit {0})) (Object TM OM SP (Unit {0})) (ObjectList TM LM)
  network_domain_copies = copies object_meta list_meta message

  abbrev pub site_copies :
      Copies (Cell F TM OM LM SP (Unit {0})) (Object TM OM SP (Unit {0})) (ObjectList TM LM)
  site_copies = copies object_meta list_meta message

  abbrev pub subnet_copies :
      Copies (Cell F TM OM LM SP (Unit {0})) (Object TM OM SP (Unit {0})) (ObjectList TM LM)
  subnet_copies = copies object_meta list_meta message

  abbrev pub vpc_copies :
      Copies (Cell F TM OM LM SP (Unit {0})) (Object TM OM SP (Unit {0})) (ObjectList TM LM)
  vpc_copies = copies object_meta list_meta message

  abbrev pub vpn_copies :
      Copies (Cell F TM OM LM SP (Unit {0})) (Object TM OM SP (Unit {0})) (ObjectList TM LM)
  vpn_copies = copies object_meta list_meta message

-- The connection objects: the status is a struct of two texts.
module _ {F TM OM LM SP AM AL AS : Type 0}
    (object_meta : GoType (Cell F TM OM LM SP InterNetworkDomainConnectionStatus) OM AM)
    (list_meta : GoType (Cell F TM OM LM SP InterNetworkDomainConnectionStatus) LM AL)
    (message : GoType (Cell F TM OM LM SP InterNetworkDomainConnectionStatus) SP AS) where
  abbrev pub connection_copies :
      Copies
        (Cell F TM OM LM SP InterNetworkDomainConnectionStatus)
        (Object TM OM SP InterNetworkDomainConnectionStatus)
        (ObjectList TM LM)
  connection_copies = copies object_meta list_meta message

-- The app connection objects: the spec is a struct around the message, the status a text.
module _ {F TM OM LM V AM AL A : Type 0}
    (object_meta : GoType (Cell F TM OM LM (WrappedSpec V) String) OM AM)
    (list_meta : GoType (Cell F TM OM LM (WrappedSpec V) String) LM AL)
    (message : GoType (Cell F TM OM LM (WrappedSpec V) String) V A) where
  abbrev pub app_connection_copies :
      Copies
        (Cell F TM OM LM (WrappedSpec V) String)
        (Object TM OM (WrappedSpec V) String)
        (ObjectList TM LM)
  app_connection_copies = copies object_meta list_meta (wrapped_spec message)
