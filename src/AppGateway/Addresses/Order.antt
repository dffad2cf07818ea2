-- ===== src/AppGateway/Addresses/Order.antt =====
-- fixedIPv4FromAddresses and the order in which Go ranges over the networks.
use rcp_server.Base.{◌≡◌, refl, sym, ◌∙◌, ap, List, [], ◌∷◌, ◌++◌, arith, Text, if◌then◌else◌}
use rcp_server.Stdlib.Strings.{trim_space}
use rcp_server.AppGateway.Addresses.{
  Addresses, fixed_of_network, fixed_ips, Found, address_is, missing, missing_on, ambiguous,
  only_one, is_empty, fixed_ipv4_from_addresses,
}

-- the same elements in another order
pub data Reordered {A : Type 0} : List A → List A → Type 0 where
  nil : Reordered [] []
  cons : (a : A) {xs ys : List A} → Reordered xs ys → Reordered (a ∷ xs) (a ∷ ys)
  swap : (a b : A) (xs : List A) → Reordered (a ∷ b ∷ xs) (b ∷ a ∷ xs)
  trans : {xs ys zs : List A} → Reordered xs ys → Reordered ys zs → Reordered xs zs

-- how many addresses there are, up to two
data Tally : Type 0 where
  nobody several : Tally
  single : Text → Tally

abbrev tally : List Text → Tally
tally [] = nobody
tally (x ∷ []) = single x
tally (x ∷ _ ∷ _) = several

abbrev add : Tally → Tally → Tally
add nobody t = t
add several t = several
add (single x) nobody = single x
add (single x) several = several
add (single x) (single y) = several

add_comm : (a b : Tally) → add a b ≡ add b a
add_comm nobody nobody = refl
add_comm nobody several = refl
add_comm nobody (single y) = refl
add_comm several nobody = refl
add_comm several several = refl
add_comm several (single y) = refl
add_comm (single x) nobody = refl
add_comm (single x) several = refl
add_comm (single x) (single y) = refl

add_assoc : (a b c : Tally) → add (add a b) c ≡ add a (add b c)
add_assoc nobody b c = refl
add_assoc several b c = refl
add_assoc (single x) nobody c = refl
add_assoc (single x) several c = refl
add_assoc (single x) (single y) nobody = refl
add_assoc (single x) (single y) several = refl
add_assoc (single x) (single y) (single z) = refl

tally-append : (xs ys : List Text) → tally (xs ++ ys) ≡ add (tally xs) (tally ys)
tally-append [] ys = refl
tally-append (x ∷ []) [] = refl
tally-append (x ∷ []) (y ∷ []) = refl
tally-append (x ∷ []) (y ∷ _ ∷ _) = refl
tally-append (x ∷ _ ∷ _) ys = refl

abbrev answer : Text → Tally → Found
answer wanted nobody = if is_empty wanted then missing else missing_on wanted
answer wanted several = ambiguous
answer wanted (single x) = address_is x

only_one-tally : (wanted : Text) (xs : List Text) → only_one wanted xs ≡ answer wanted (tally xs)
unfolding only_one
only_one-tally wanted [] = refl
only_one-tally wanted (x ∷ []) = refl
only_one-tally wanted (x ∷ _ ∷ _) = refl

module _ (wanted : Text) where
  abbrev part : Text × Addresses → Tally
  part r = tally (fixed_of_network wanted r)

  tally-fixed_ips :
      (r : Text × Addresses) (rest : List (Text × Addresses))
      → tally (fixed_ips wanted (r ∷ rest)) ≡ add (part r) (tally (fixed_ips wanted rest))
  unfolding fixed_ips
  tally-fixed_ips r rest = tally-append (fixed_of_network wanted r) (fixed_ips wanted rest)

  swapped : (a b t : Tally) → add a (add b t) ≡ add b (add a t)
  swapped a b t = sym (add_assoc a b t) ∙ (ap (λ x. add x t) (add_comm a b) ∙ add_assoc b a t)

  tally-Reordered :
      {xs ys : List (Text × Addresses)}
      → Reordered xs ys
      → tally (fixed_ips wanted xs) ≡ tally (fixed_ips wanted ys)
  tally-Reordered nil = refl
  tally-Reordered (cons a {xs = xs} {ys = ys} p) =
      tally-fixed_ips a xs ∙ (ap (add (part a)) (tally-Reordered p) ∙ sym (tally-fixed_ips a ys))
  tally-Reordered (swap a b xs) = ground (
    arith,
    tally-fixed_ips a (b ∷ xs),
    tally-fixed_ips b xs,
    tally-fixed_ips b (a ∷ xs),
    tally-fixed_ips a xs,
    swapped (part a) (part b) (tally (fixed_ips wanted xs)),
  )
  tally-Reordered (trans p q) = tally-Reordered p ∙ tally-Reordered q

-- Whatever order the range over the networks takes, the answer is the same: the address if it is the
-- only one, and the same error otherwise.
pub fixed_ipv4_from_addresses-Reordered :
    (fixed_network : Text) {xs ys : List (Text × Addresses)}
    → Reordered xs ys
    → fixed_ipv4_from_addresses xs fixed_network ≡ fixed_ipv4_from_addresses ys fixed_network
unfolding fixed_ipv4_from_addresses
fixed_ipv4_from_addresses-Reordered fixed_network {xs = xs} {ys = ys} p =
    let wanted = trim_space fixed_network in
    only_one-tally wanted (fixed_ips wanted xs)
    ∙ (ap (answer wanted) (tally-Reordered wanted p)
        ∙ sym (only_one-tally wanted (fixed_ips wanted ys)))
