-- ===== src/Formatter.antt =====
-- The formatters of include/nghttp2-corosio/formatter.hpp: an nghttp2_nv with its format
-- specification, and an endpoint.
pub mod Spec
use nghttp2_corosio.Base.{
  ℕ, Bool, true, false, Option, none, some, List, [], ◌∷◌, ◌++◌, Bytes, codes, ◌==◌, if◌then◌else◌,
}
use nghttp2_corosio.Decimal.{to_string}

pub data Part : Type 0 where
  name_and_value name value : Part

-- Nothing, or a closing brace, may follow the letter; otherwise std::format_error is thrown (`none`).
unfoldable pub closed_after : Part → Bytes → Option (Part × Bytes)
closed_after what [] = some (what, [])
closed_after what (c ∷ rest) = if c == b'}' then some (what, c ∷ rest) else none

-- The part that a specification asks for, and what is left of it.
unfoldable pub parse : Bytes → Option (Part × Bytes)
unfolding closed_after
parse [] = some (name_and_value, [])
parse (c ∷ rest) =
    if c == b'n'
    then closed_after name rest
    else if c == b'v'
    then closed_after value rest
    else closed_after name_and_value (c ∷ rest)

abbrev has_name : Part → Bool
has_name name_and_value = true
has_name name = true
has_name value = false

abbrev has_value : Part → Bool
has_value name_and_value = true
has_value name = false
has_value value = true

abbrev has_both : Part → Bool
has_both name_and_value = true
has_both name = false
has_both value = false

unfoldable pub format : Part → Bytes → Bytes → Bytes
format what n v =
    (if has_name what then n else [])
    ++ ((if has_both what then codes "=" else []) ++ (if has_value what then v else []))

-- An address is printed by the library that defines it; its text is given.
pub record Endpoint : Type 0 where
  pub is_v6 : Bool
  pub address : Bytes
  pub port : ℕ

unfoldable pub format_endpoint : Endpoint → Bytes
unfolding to_string
format_endpoint ep =
    if ep.is_v6
    then codes "[" ++ (ep.address ++ (codes "]:" ++ to_string ep.port))
    else ep.address ++ (codes ":" ++ to_string ep.port)
