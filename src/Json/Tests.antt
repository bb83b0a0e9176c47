-- ===== src/Json/Tests.antt =====
-- Runs of `json_find_str`, and its theorem at an input.
use tether_obs_plugin.Common.{◌≡◌, refl, true, [], ◌∷◌, some, arith, codes, str_eq, List}
use tether_obs_plugin.Json.{json_find_str, json_eq_str}
use tether_obs_plugin.Json.Fields.{
  Field, IsKey, IsObject, key_byte, plain_byte, render, field_of, json_find_str-render,
}

-- The value of `type` is spelled like the key that is looked for.
tricky :
    json_find_str (codes "{\"type\":\"token\",\"token\":\"TTHR-1\"}") (codes "token")
    ≡ some (codes "TTHR-1")
unfolding json_find_str
tricky = refl

escaped : json_find_str (codes "{\"sdp\":\"a\\\"b\"}") (codes "sdp") ≡ some (codes "a\\\"b")
unfolding json_find_str
escaped = refl

-- No colon is needed: a run of blanks, even an empty one, passes for the separator.
no_colon : json_eq_str (codes "{\"type\"\"token\"}") (codes "type") (codes "token") ≡ true
unfolding json_eq_str str_eq
no_colon = refl

abbrev fields : List Field
fields = (codes "type", codes "token") ∷ (codes "token", codes "TTHR-1") ∷ []

token-IsKey : IsKey (codes "token")
unfolding key_byte
token-IsKey = record { bytes = (refl, (refl, (refl, (refl, (refl, tt))))); filled = λ h. cc }

fields-IsObject : IsObject fields
unfolding plain_byte
fields-IsObject = ground arith

json_find_str-render_example :
    json_find_str (render fields) (codes "token") ≡ field_of (codes "token") fields
json_find_str-render_example =
    json_find_str-render (codes "token") fields token-IsKey fields-IsObject
