-- ===== src/AppGateway/Addresses/Tests.antt =====
-- The address of a server on two networks.
use rcp_server.Base.{◌≡◌, refl, [], ◌∷◌, Text, codes, text_eq}
use rcp_server.Stdlib.Strings.{trim_space}
use rcp_server.AppGateway.Addresses.{
  Addresses, entries, entry, number, text, is_ipv4_version, fixed_address, fixed_of_entries,
  fixed_of_network, fixed_ips, only_one, fixed_ipv4_from_addresses, address_is, ambiguous,
}
use rcp_server.AppGateway.Addresses.Order.{swap, fixed_ipv4_from_addresses-Reordered}

abbrev private_network : Text × Addresses
private_network =
    (codes "private", entries (entry (number 4) (codes "fixed") (codes "10.0.0.5") ∷ []))

abbrev other_network : Text × Addresses
other_network =
    (codes "other", entries (entry (text (codes "4")) (codes "fixed") (codes "10.1.0.9") ∷ []))

chosen :
    fixed_ipv4_from_addresses (private_network ∷ other_network ∷ []) (codes "private")
    ≡ address_is (codes "10.0.0.5")
unfolding is_ipv4_version fixed_address fixed_of_entries fixed_of_network fixed_ips only_one
    fixed_ipv4_from_addresses trim_space text_eq
chosen = refl

both : fixed_ipv4_from_addresses (private_network ∷ other_network ∷ []) [] ≡ ambiguous
unfolding is_ipv4_version fixed_address fixed_of_entries fixed_of_network fixed_ips only_one
    fixed_ipv4_from_addresses trim_space text_eq
both = refl

fixed_ipv4_from_addresses-Reordered_example :
    fixed_ipv4_from_addresses (private_network ∷ other_network ∷ []) (codes "private")
    ≡ fixed_ipv4_from_addresses (other_network ∷ private_network ∷ []) (codes "private")
fixed_ipv4_from_addresses-Reordered_example =
    fixed_ipv4_from_addresses-Reordered (codes "private") (swap private_network other_network [])
