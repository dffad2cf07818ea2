-- ===== src/AppGateway/Addresses.antt =====
-- fixedIPv4FromAddresses of resolver.go: the one fixed IPv4 address of a server, on the configured
-- network if there is one. The networks stand in the order in which a range over the map meets them.
pub mod Order
mod Tests
use rcp_server.Base.{
  ℕ, Bool, true, false, not, ◌&&◌, List, [], ◌∷◌, ◌++◌, Option, none, some, if◌then◌else◌, ◌==◌,
  Text, text_eq, codes,
}
use rcp_server.Stdlib.Strings.{trim_space}

-- what an entry's version decodes to
pub data Version : Type 0 where
  number : (n : ℕ) → Version
  text : (s : Text) → Version
  other_version : Version

-- an entry, with "" for a field that is no string; or something that is no map
pub data Entry : Type 0 where
  entry : (version : Version) (kind address : Text) → Entry
  no_map : Entry

-- a network's value, which is a list of entries or something else
pub data Addresses : Type 0 where
  entries : List Entry → Addresses
  no_list : Addresses

unfoldable pub is_ipv4_version : Version → Bool
is_ipv4_version (number n) = n == 4
is_ipv4_version (text s) = text_eq s (codes "4")
is_ipv4_version other_version = false

abbrev pub is_empty : Text → Bool
is_empty [] = true
is_empty (_ ∷ _) = false

-- the address of an entry that counts
unfoldable pub fixed_address : Entry → List Text
fixed_address (entry version kind address) =
    if is_ipv4_version version
      && text_eq (trim_space kind) (codes "fixed")
      && not (is_empty (trim_space address))
    then trim_space address ∷ []
    else []
fixed_address no_map = []

unfoldable pub fixed_of_entries : List Entry → List Text
fixed_of_entries [] = []
fixed_of_entries (e ∷ es) = fixed_address e ++ fixed_of_entries es

unfoldable pub fixed_of_network : Text → Text × Addresses → List Text
fixed_of_network wanted (network, entries es) =
    if not (is_empty wanted) && not (text_eq network wanted) then [] else fixed_of_entries es
fixed_of_network wanted (network, no_list) = []

unfoldable pub fixed_ips : Text → List (Text × Addresses) → List Text
fixed_ips wanted [] = []
fixed_ips wanted (r ∷ rest) = fixed_of_network wanted r ++ fixed_ips wanted rest

pub data Found : Type 0 where
  address_is : Text → Found
  missing : Found
  missing_on : (network : Text) → Found
  ambiguous : Found

-- the switch on the number of addresses
unfoldable pub only_one : Text → List Text → Found
only_one wanted [] = if is_empty wanted then missing else missing_on wanted
only_one wanted (ip ∷ []) = address_is ip
only_one wanted (ip ∷ _ ∷ _) = ambiguous

unfoldable pub fixed_ipv4_from_addresses : List (Text × Addresses) → Text → Found
fixed_ipv4_from_addresses addresses fixed_network =
    only_one (trim_space fixed_network) (fixed_ips (trim_space fixed_network) addresses)
