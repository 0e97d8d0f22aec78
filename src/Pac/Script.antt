-- ===== src/Pac/Script.antt =====
-- The lines that pac.go writes for the routes of a status.
use tswipoexp.Prelude.{
  ℕ, ◌-◌, ◌%◌, ◌^◌, ◌≤◌, ◌<◌, ◌≡◌, Option, some, none, Bool, List, [], ◌∷◌, ◌++◌, Bytes, codes,
  nat_eq, list_eq, All, map,
}
use tswipoexp.Profiles.Config.{Config}
use tswipoexp.Status.{Status, Peer, Prefix, v4}
use tswipoexp.Pac.Netip.{addr_text, prefix_text, masked, parse_prefix}
use tswipoexp.Pac.{quoted_byte, route_line, route_lines}

-- The number of addresses in a network with this length of prefix
abbrev size : ℕ → ℕ
size bits = 2 ^ (32 - bits)

abbrev pub base : ℕ → ℕ → ℕ
base n bits = n - n % size bits

-- Bytes that `%q` leaves as they are
abbrev Plain : Bytes → Type 0
Plain = All (λ c. quoted_byte c ≡ c ∷ [])

abbrev prefix_of : ℕ → ℕ → Prefix
prefix_of n bits = record { addr = v4 n; bits = bits }

-- The text of a network, and the test for it in the script: its first address and its mask.
abbrev pub net_text : ℕ × ℕ → Bytes
net_text (n, bits) = prefix_text (masked (record { addr = v4 n; bits = bits }))

abbrev pub net_line : ℕ × ℕ → Bytes
net_line (n, bits) =
    codes "  if (isV4(host) && isInNet(host, \""
    ++ addr_text (n - n % 2 ^ (32 - bits))
    ++ codes "\", \""
    ++ addr_text (2 ^ 32 - 2 ^ (32 - bits))
    ++ codes "\")) return P;\n"

abbrev pub net_lines : List (ℕ × ℕ) → Bytes
net_lines [] = []
net_lines (net ∷ nets) = net_line net ++ net_lines nets

-- An IPv4 prefix has an address of 32 bits and a length up to 32.
abbrev pub IsSound : Prefix → Type 0
IsSound r = (n : ℕ) → r.addr ≡ v4 n → (n < 2 ^ 32) × (r.bits ≤ 32)

abbrev AreSound : Option (List Prefix) → Type 0
AreSound none = Unit
AreSound (some rs) = All IsSound rs

abbrev pub HasSound : Peer → Type 0
HasSound p = AreSound p.primary_routes

-- The networks of the routes with the lines that the script has for them
abbrev pub HasLines : List Bytes → Type 0
HasLines routes =
    (nets : List (ℕ × ℕ)) × (map net_text nets ≡ routes) × (route_lines routes ≡ net_lines nets)

module _ (is_tailscale_ip : ℕ → Bool) (peers : List Peer) (sound : All HasSound peers) where
  -- The network of a route
  abbrev Net : Bytes → Type 0
  Net s = (net : ℕ × ℕ) × (net_text net ≡ s) × (route_line s (parse_prefix s) ≡ net_line net)
