-- ===== src/Tests/Cache.antt =====
-- A response with a TTL of 60 seconds in the cache of src/dns_cache.rs. The codec of the tests
-- reads and writes messages as they are, and folds no name.
use egressy.Base.{
  ℕ, ◌-◌, ◌≤◌, ◌≡◌, refl, true, false, none, some, List, [], ◌∷◌, String, string_key, lookup, arith,
}
use egressy.Dns.Cache.{
  response, query, no_error, Message, CacheKey, Entry, DnsCache, Codec, new, min_ttl, max_ttl,
  is_response, cacheable_ttl, seconds_for, storable, store, answer_from, served, key_for,
  cache_key_key, serve_key, serve_entry,
}
use egressy.Dns.Cache.Ttl.{cacheable_ttl_sound, Allows}
use egressy.Dns.Cache.Serving.{IsSound, Call, stores, asks, calls, new-calls-IsSound}
use egressy.Dns.Cache.Answers.{answers_fresh, Hit, Within, ask_all, store_then_answer}

abbrev Text : Type 0
Text = Message String Unit

abbrev codec : Codec String Unit Text
codec = record { from_vec = some; to_vec = some; folded = λ name. name }

abbrev asked : Text
asked = record {
  id = 7;
  recursion_desired = true;
  message_type = query;
  truncation = false;
  response_code = no_error;
  queries = record { name = "example.org"; query_type = 1; query_class = 1 } ∷ [];
  answers = [];
  authorities = [];
  additionals = [];
  others = tt;
}

abbrev answered : Text
answered = record asked {
  message_type = response;
  answers = record { ttl = 60; soa_minimum = none; content = tt } ∷ [];
  additionals = record { ttl = 3600; soa_minimum = none; content = tt } ∷ [];
}

abbrev key : CacheKey String
key = record { upstream = "9.9.9.9"; name = "example.org"; record_type = 1; dns_class = 1 }

abbrev entry : Entry String Unit
entry = record { response = answered; stored_at = 0; ttl = 60_000_000_000 }

abbrev full : DnsCache String String Unit
full = record { entries = (key, entry) ∷ []; capacity = 1 }

answered_ttl : cacheable_ttl answered ≡ some 60_000_000_000
unfolding cacheable_ttl seconds_for
answered_ttl = refl

cacheable_ttl_sound_example :
    (min_ttl ≤ 60_000_000_000)
    × (60_000_000_000 ≤ max_ttl)
    × (is_response response ≡ true)
    × (false ≡ false)
    × Allows no_error answered 60_000_000_000
cacheable_ttl_sound_example = cacheable_ttl_sound answered 60_000_000_000 answered_ttl

abbrev other_key : CacheKey String
other_key = record key { name = "example.net" }

abbrev traffic : List (ℕ × Call String Text)
traffic = (0, stores asked answered "9.9.9.9") ∷ (5, asks asked "9.9.9.9") ∷ []

new-calls-IsSound_example : IsSound (calls codec traffic (new 1))
new-calls-IsSound_example = new-calls-IsSound codec traffic 1

full-IsSound : IsSound full
unfolding lookup
full-IsSound = record {
  positive = omega arith;
  bounded = omega arith;
  kept = λ k e f. ground (arith, answered_ttl);
}

hit : (answer_from codec asked "9.9.9.9" 10 full).1 ≡ some (served entry asked 10)
unfolding answer_from serve_key serve_entry key_for lookup
hit = refl

answers_fresh_example :
    (h : Hit codec asked "9.9.9.9" 10 full (served entry asked 10)) × (h.entry.ttl ≤ max_ttl)
    × (let m = served h.entry h.request (10 - h.entry.stored_at) in
        (m.id ≡ h.request.id)
        × (m.queries ≡ h.request.queries)
        × (m.response_code ≡ h.entry.response.response_code)
        × Within h.entry.ttl (10 - h.entry.stored_at) m.answers
        × Within h.entry.ttl (10 - h.entry.stored_at) m.authorities
        × (m.additionals ≡ h.entry.response.additionals))
answers_fresh_example =
    answers_fresh codec asked "9.9.9.9" 10 full (served entry asked 10) full-IsSound hit

asked_storable : storable codec asked answered "9.9.9.9" ≡ some (key, answered, 60_000_000_000)
unfolding storable key_for cacheable_ttl seconds_for
asked_storable = refl

asked_keyed : key_for codec asked "9.9.9.9" ≡ some key
unfolding key_for
asked_keyed = refl

abbrev between : List (Text × String × ℕ)
between = (asked, "9.9.9.9", 12) ∷ (asked, "1.1.1.1", 15) ∷ []

store_then_answer_example :
    (answer_from codec asked "9.9.9.9" 20
      (ask_all codec between (store codec asked answered "9.9.9.9" 10 full))).1
    ≡ some (served (record entry { stored_at = 10 }) asked 10)
store_then_answer_example =
    store_then_answer codec asked answered asked "9.9.9.9" "9.9.9.9" 10 20 full key answered asked
      60_000_000_000 between asked_storable refl asked_keyed (omega arith)
      (omega arith, (omega arith, tt))
