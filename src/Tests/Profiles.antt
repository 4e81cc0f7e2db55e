-- ===== src/Tests/Profiles.antt =====
-- A store of src/profiles.rs over services that read and encrypt texts as they are.
use egressy.Base.{◌≡◌, refl, inr, String, true, some, List, [], ◌∷◌, arith}
use egressy.Profiles.{Services, load, stage, staged_row, insert_row, count_id, is_valid_id}
use egressy.Profiles.OneActive.{IsStore, Call, stages, activates, deletes, calls, calls-IsStore}
use egressy.Profiles.RoundTrip.{load-stage}

abbrev plain : Services String String String String Unit String
plain = record {
  parse = some;
  redacted = λ profile. "redacted";
  to_json = some;
  from_json = some;
  nonce_len = λ n. 24;
  encrypt = λ n s. some s;
  decrypt = λ n c. some c;
}

abbrev first_id : String
first_id = "0123456789abcdef01234567"

abbrev evening : List (Call String Unit)
evening =
    stages "[Interface]" tt first_id 1000
    ∷ activates first_id 2000
    ∷ deletes first_id
    ∷ stages "[Peer]" tt "1123456789abcdef01234567" 3000
    ∷ []

empty-IsStore : IsStore {Json = String} {Nonce = Unit} {Cipher = String} []
unfolding count_id
empty-IsStore = record { keyed = λ id. omega arith; one_active = omega arith }

calls-IsStore_example : IsStore (calls plain evening [])
calls-IsStore_example = calls-IsStore plain evening [] empty-IsStore

first_staged : (stage plain "[Interface]" tt first_id 1000 []).1 ≡ inr tt
unfolding stage staged_row insert_row count_id
first_staged = refl

first_valid : is_valid_id first_id ≡ true
unfolding is_valid_id
first_valid = refl

load-stage_example :
    load plain first_id (stage plain "[Interface]" tt first_id 1000 []).0 ≡ inr (some "[Interface]")
load-stage_example =
    load-stage plain "[Interface]" tt first_id 1000 [] "[Interface]" (λ n s c e. ground (arith, e))
      first_valid refl refl first_staged
