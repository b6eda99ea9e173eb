-- ===== src/Device/SystemConfig/Checks.antt =====
-- The checks before a configuration is saved: `is_ipv4_netmask`, `valid_tcp_ports` and
-- `validate_for_persistence` of src/device/system_config.rs.
pub mod Netmask
use idf.Base.{
  ℕ, zero, suc, ◌+◌, ◌*◌, ◌/◌, ◌%◌, ◌^◌, List, [], ◌∷◌, Bool, true, false, not, ◌&&◌, ◌||◌, Option,
  none, some, ◌==◌, ◌!=◌, leb, if◌then◌else◌, get_or, take,
}
use idf.Device.SystemConfig.{SystemConfig}

-- The loop over the bits, with the bits below `bit` left.
unfoldable pub netmask_loop : ℕ → Bool → ℕ → Bool
netmask_loop zero saw_zero bits = true
netmask_loop (suc bit) saw_zero bits =
    let cleared = netmask_loop bit true bits in
    let set_still = netmask_loop bit false bits in
    if bits / 2 ^ bit % 2 == 0 then cleared else if saw_zero then false else set_still

abbrev pub all_zero : List ℕ → Bool
all_zero [] = true
all_zero (x ∷ xs) = x == 0 && all_zero xs

-- `u32::from_be_bytes`
abbrev pub be32 : List ℕ → ℕ
be32 value =
    ((get_or value 0 0 * 256 + get_or value 1 0) * 256 + get_or value 2 0) * 256 + get_or value 3 0

unfoldable pub is_ipv4_netmask : List ℕ → Bool
is_ipv4_netmask value = if all_zero value then false else netmask_loop 32 false (be32 value)

abbrev pub contains : List ℕ → ℕ → Bool
contains [] x = false
contains (y ∷ ys) x = y == x || contains ys x

-- `all` over the ports from the index `index` on.
unfoldable pub valid_ports_from : List ℕ → ℕ → List ℕ → Bool
valid_ports_from all index [] = true
valid_ports_from all index (port ∷ ports) =
    port != 0
    && port != 80
    && not (contains (take index all) port)
    && valid_ports_from all (suc index) ports

unfoldable pub valid_tcp_ports : List ℕ → Bool
valid_tcp_ports ports = valid_ports_from ports 0 ports

pub data ConfigError : Type 0 where
  tcp_ports netmask static_ip gateway dns : ConfigError

abbrev pub unusable : List ℕ → Bool
unusable address = all_zero address || leb 224 (get_or address 0 0)

-- `none` where the source returns `Ok(())`.
unfoldable pub validate_for_persistence : SystemConfig → Option ConfigError
validate_for_persistence c =
    if not (valid_tcp_ports c.tcp_ports)
    then some tcp_ports
    else if c.dhcp
    then none
    else if not (is_ipv4_netmask c.mask)
    then some netmask
    else if unusable c.ip
    then some static_ip
    else if unusable c.gateway
    then some gateway
    else if unusable c.dns
    then some dns
    else none
