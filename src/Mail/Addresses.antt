-- ===== src/Mail/Addresses.antt =====
-- The address lists of EAS: splitEASAddresses (mime.go) and parseEASAddrs (imapd.go).
use Prim.Native.Char.{Char, code}
use Prim.Native.String.{[] as nil, ◌∷◌ as cons, ◌++◌ as join}
use eas_bridge.Prelude.{
  ℕ, String, Bool, true, false, not, ◌&&◌, ◌||◌, Option, none, some, List, [], ◌∷◌, ◌++◌, is_empty,
  ◌==◌, if◌then◌else◌,
}
use eas_bridge.Folders.Component.{trim_space}

unfoldable pub one_char : Char → String
one_char c = cons c ""

-- flush: the text that was read, where it is not blank
unfoldable pub flush : String → List String → List String
unfolding trim_space
flush b out = let s = trim_space b in if is_empty s then out else out ++ s ∷ []

-- The loop, with the text that was read, inQuote, escaped and out.
unfoldable pub split_from : String → String → Bool → Bool → List String → List String
unfolding flush one_char
split_from nil b in_quote escaped out = flush b out
split_from (cons ch rest) b in_quote true out =
    split_from rest (join b (one_char ch)) in_quote false out
split_from (cons ch rest) b in_quote false out =
    let kept = join b (one_char ch) in
    elim (code ch == 92 && in_quote) [
      | true ↦ split_from rest kept in_quote true out
      | false ↦ elim (code ch == 34) [
        | true ↦ split_from rest kept (not in_quote) false out
        | false ↦ elim (code ch == 59 && not in_quote) [
          | true ↦ split_from rest "" in_quote false (flush b out)
          | false ↦ split_from rest kept in_quote false out
        ]
      ]
    ]

-- splitEASAddresses
unfoldable pub split_eas_addresses : String → List String
unfolding split_from
split_eas_addresses value = split_from value "" false false []

pub record Address : Type 0 where
  pub name : String
  pub mailbox : String
  pub host : String

-- What stands before and after the last place of a character.
unfoldable pub cut_last : ℕ → String → Option (String × String)
cut_last n nil = none
cut_last n (cons c cs) = elim (cut_last n cs) [
  | some (a, b) ↦ some (cons c a, b)
  | none ↦ if code c == n then some ("", cs) else none
]

unfoldable pub is_name_padding : Char → Bool
is_name_padding c = code c == 32 || code c == 34

-- `strings.Trim(s, " \"")`
unfoldable pub trim_name_left : String → String
unfolding is_name_padding
trim_name_left nil = ""
trim_name_left (cons c cs) =
    let rest = trim_name_left cs in if is_name_padding c then rest else cons c cs

unfoldable pub trim_name_right : String → String
unfolding is_name_padding
trim_name_right nil = ""
trim_name_right (cons c cs) =
    let rest = trim_name_right cs in if is_empty rest && is_name_padding c then "" else cons c rest

-- The part before the last '@' and the host, or the whole as the mailbox.
unfoldable pub with_host : String → String → Option (String × String) → Address
with_host name whole (some (mailbox, host)) = record { name = name; mailbox = mailbox; host = host }
with_host name whole none = record { name = name; mailbox = whole; host = "" }

-- One address; `p[i+1 : len(p)-1]` is what stands between the last '<' and the '>' at the end.
unfoldable pub address_of : String → Address
unfolding cut_last trim_name_left trim_name_right with_host
address_of p =
    let plain = with_host "" p (cut_last 64 p) in
    elim (cut_last 60 p) [
      | none ↦ plain
      | some (before, after) ↦ elim (cut_last 62 after) [
        | none ↦ plain
        | some (email, end) ↦
            if is_empty end
            then with_host (trim_name_right (trim_name_left before)) "" (cut_last 64 email)
            else plain
      ]
    ]

-- The parts of `strings.Split(raw, ";")`, the first of them still open.
unfoldable pub split_parts : String → String × List String
split_parts nil = ("", [])
split_parts (cons c cs) =
    let rest = split_parts cs in
    if code c == 59 then ("", rest.0 ∷ rest.1) else (cons c rest.0, rest.1)

unfoldable pub addresses_of : List String → List Address
unfolding trim_space address_of
addresses_of [] = []
addresses_of (p ∷ ps) =
    let rest = addresses_of ps in
    if is_empty (trim_space p) then rest else address_of (trim_space p) ∷ rest

-- parseEASAddrs; a blank text has no parts that are not blank.
unfoldable pub parse_eas_addrs : String → List Address
unfolding split_parts addresses_of
parse_eas_addrs raw = let parts = split_parts (trim_space raw) in addresses_of (parts.0 ∷ parts.1)
