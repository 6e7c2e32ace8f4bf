-- ===== src/Portmapper/Slots.antt =====
-- portmapper/mapper.go: the keys of the mappings.
use libnetwork.Prelude.{◌≡◌, ◌↔◌, refl, ap, Bool, true, false, Option, none, some}
use mathlib.Core.Option.{some-injective}
use libnetwork.Setmatrix.Sets.{Eq}
use libnetwork.Portallocator.Addresses.Slots.{Slot, same_slot, same_slot_iff}

abbrev pub same_key : Option Slot → Option Slot → Bool
same_key none none = true
same_key none (some t) = false
same_key (some s) none = false
same_key (some s) (some t) = same_slot s t

pub same_key_iff : (j k : Option Slot) → (same_key j k ≡ true) ↔ (j ≡ k)
same_key_iff none none = ((λ h. refl), (λ h. refl))
same_key_iff none (some t) = ((λ h. cc), (λ h. cc))
same_key_iff (some s) none = ((λ h. cc), (λ h. cc))
same_key_iff (some s) (some t) = (
  (λ h. ap (λ x. some x) ((same_slot_iff s t).0 h)),
  (λ h. (same_slot_iff s t).1 (some-injective s t h)),
)

instance abbrev pub key_eq : Eq (Option Slot)
key_eq = record { beq = same_key; beq_iff = same_key_iff }
