-- ===== src/Doctor/Devices/Network.antt =====
-- The status of the network check of board-support/e87n/doctor.py.
use edgepi_e87n.Base.{Bool, true, not, ◌&&◌, List, [], ◌∷◌, ◌≡◌, ◌↔◌, refl, arith, all, any}
use edgepi_e87n.Doctor.{good}
use edgepi_e87n.Doctor.Identity.{is_missing, is_yes}
use edgepi_e87n.Doctor.Devices.{Interface, is_value, any_of, is_incomplete, network_of}

-- Carrier and address provenance are known, and the address is not a random one.
pub is_accounted : Interface → Bool
is_accounted i =
    not (is_missing i.carrier)
    && not (is_missing i.addr_assign_type)
    && not (is_value 1 i.addr_assign_type)

all-is_accounted :
    (items : List Interface)
    → (not (any (λ i. is_value 1 (Interface.addr_assign_type i)) items)
        && not (any is_incomplete items))
      ≡ all is_accounted items
unfolding is_accounted is_incomplete
all-is_accounted [] = refl
all-is_accounted (i ∷ items) = ground (arith, all-is_accounted items)

-- The network check is ok exactly when all interfaces were seen, one of them has a carrier, and of
-- every one the carrier and the origin of its address are known, none being random. What could not be
-- observed never counts as ok.
pub network_of_iff :
    (complete : Bool) (items : List Interface)
    → ((network_of complete items).status ≡ good) ↔ (
        (complete ≡ true)
        × (any (λ i. is_value 1 (Interface.carrier i)) items ≡ true)
        × (all is_accounted items ≡ true))
unfolding network_of any_of is_yes
network_of_iff complete items = ground (arith, all-is_accounted items)
