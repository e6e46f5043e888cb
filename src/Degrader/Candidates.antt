-- ===== src/Degrader/Candidates.antt =====
-- The addresses that server/app_qos/selective_degrader.py offers for an application. The resolver of
-- the system is a parameter; a name that it cannot resolve has no addresses.
use Prim.Native.Char.{code}
use pathwiseai.Prelude.{
  String, Bool, false, not, Option, none, some, List, [], ◌∷◌, ◌++◌, take, ◌==◌, ◌||◌, ◌&&◌, str_eq,
  if◌then◌else◌,
}
use pathwiseai.Prelude.Dict.{lookup}
use pathwiseai.Qos.Tiers.{AppSignature}
use pathwiseai.Qos.Signatures.{app_signatures}

abbrev pub contains : String → List String → Bool
contains s [] = false
contains s (t ∷ ts) = str_eq t s || contains s ts

-- `dom.lstrip("*.")`
abbrev pub without_stars : String → String
without_stars String.[] = String.[]
without_stars (String.◌∷◌ c s) =
    let rest = without_stars s in if code c == b'*' || code c == b'.' then rest else String.◌∷◌ c s

-- The addresses of one name that are not empty and not there yet.
abbrev pub add_new : List String → List String → List String
add_new out [] = out
add_new out (ip ∷ ips) =
    if not (str_eq ip "") && not (contains ip out)
    then add_new (out ++ ip ∷ []) ips
    else add_new out ips

abbrev pub add_domains : (String → List String) → List String → List String → List String
add_domains resolve out [] = out
add_domains resolve out (dom ∷ doms) =
    add_domains resolve (add_new out (resolve (without_stars dom))) doms

abbrev candidates : (String → List String) → Option AppSignature → List String
candidates resolve none = []
candidates resolve (some sig) = add_domains resolve sig.cidrs (take 6 sig.domains)

unfoldable pub candidate_ips_for : (String → List String) → String → List String
candidate_ips_for resolve app_id = candidates resolve (lookup app_id app_signatures)
