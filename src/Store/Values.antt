-- ===== src/Store/Values.antt =====
-- What KVStore::set stores, KVStore::get reads.
use Prim.Native.Char.{code}
use Prim.Native.String as Text
use text.Mathlib.TextLemmas.{cons-append}
use mathlib.Core.Path.{◌≡◌, refl, ◌∙◌, sym, ap}
use mathlib.Core.Logic.{◌≢◌}
use mathlib.Core.Option.{some-injective}
use r2dtu_attention.Common.{
  true, Option, some, String, List, [], ◌∷◌, ◌>>=◌, Option-cases, Bool-cases, ltb, none-some, inl,
  inr,
}
use r2dtu_attention.Common.Texts.{◌<>◌, c_str}
use r2dtu_attention.Store.Redis.{
  Redis, Laws, Reply, status, integer, string, nil, error, always, without_newline, set, get, got,
  status_reply, text_reply,
}

without_newline-append : (v : String) → without_newline (v <> "\n") ≡ some v
unfolding without_newline
without_newline-append Text.[] = refl
without_newline-append (Text.◌∷◌ c Text.[]) = ap without_newline (cons-append c "" "\n") ∙ refl
without_newline-append (Text.◌∷◌ c (Text.◌∷◌ d s)) =
    ap without_newline
      (cons-append c (Text.◌∷◌ d s) "\n" ∙ ap (λ t. Text.◌∷◌ c t) (cons-append d s "\n"))
    ∙ ap (λ o. o >>= λ t. some (Text.◌∷◌ c t))
        (ap without_newline (sym (cons-append d s "\n")) ∙ without_newline-append (Text.◌∷◌ d s))

-- A text is cut once.
c_str-append : (v : String) → c_str (c_str v <> "\n") ≡ c_str v <> "\n"
unfolding c_str
c_str-append Text.[] = refl
c_str-append (Text.◌∷◌ c v) = elim (Bool-cases (ltb 0 (code c))) [
  | inl y ↦ rw (y, cons-append c (c_str v) "\n", y) (ap (λ t. Text.◌∷◌ c t) (c_str-append v))
  | inr z ↦ rw z refl
]

module _ (redis : Redis) (laws : Laws redis) where
  open redis use {Server, command}

  status_reply_of :
      (r : Reply × Server) → r.0 ≡ status "OK" → status_reply redis r ≡ some (true, r.1)
  unfolding status_reply
  status_reply_of (reply, s) e = rw e refl

  -- A reply is read in the same way whatever the server is.
  got_same :
      (r : Reply) (s s' : Server) (o : Option String)
      → got redis (r, s) ≡ some (o, s)
      → got redis (r, s') ≡ some (o, s')
  unfolding got
  got_same (string t) s s' o e = elim (Option-cases (without_newline (c_str t))) [
    | inl n ↦ absurd (none-some (rw n at e))
    | inr (u, n) ↦ rw n (ap (λ v. some (v, s')) (reply_eq (rw n at e)))
  ]
    where
      reply_eq :
          {v w : Option String}
          → ◌≡◌ {A = Option (Option String × Server)} (some (v, s)) (some (w, s))
          → v ≡ w
      reply_eq e = ap (λ r. r.0) (some-injective _ _ e)
  got_same nil s s' o e = ap (λ v. some (v, s')) (ap (λ r. r.0) (some-injective _ _ e))
  got_same (status t) s s' o e = absurd (none-some e)
  got_same (integer n) s s' o e = absurd (none-some e)
  got_same (error t) s s' o e = absurd (none-some e)

  abbrev pub set_words : String → String → List String
  set_words key value = "SET" ∷ c_str key ∷ (c_str value <> "\n") ∷ []

  abbrev pub get_words : String → List String
  get_words key = "GET" ∷ c_str key ∷ []

  -- The store after SET of a value.
  abbrev pub after_set : Server → String → String → Server
  after_set s key value = (command s (set_words key value)).1

  -- Where Redis keeps its laws and executes the command, SET without a mode succeeds. If it executes GET afterwards, GET of the key
  -- gives the value, up to its first byte 0, where c_str ends, and whatever characters it ends with; for another key that is
  -- absent or a string, and that it executes GET for before and after, the reply is the one from before.
  pub get-set :
      (s : Server) (key value other : String) (o : Option String)
      → laws.IsServing s (set_words key value)
      → laws.IsServing s (get_words other)
      → laws.IsServing (after_set s key value) (get_words key)
      → laws.IsServing (after_set s key value) (get_words other)
      → laws.IsText s (c_str other)
      → c_str key ≢ c_str other
      → get redis s other ≡ some (o, s)
      → (set redis s always key value ≡ some (true, after_set s key value))
        × (get redis (after_set s key value) key ≡ some (some (c_str value), after_set s key value))
        × (get redis (after_set s key value) other ≡ some (o, after_set s key value))
  unfolding set get got
  get-set s key value other o sets gets gets' gets_other text ne e =
      let k = c_str key in
      let j = c_str other in
      let v = c_str value <> "\n" in
      let s' = after_set s key value in
      let ok = laws.set_serves s k v sets in
      let text' = laws.IsText-set_ne s k j v ok ne text in
      (
        status_reply_of (command s ("SET" ∷ k ∷ v ∷ [])) ok,
        rw
            (
              laws.get_serves s' k gets' (laws.IsText-set_self s k v ok),
              laws.value-set_self s k v ok,
              c_str-append value,
              without_newline-append (c_str value),
            )
            refl,
        rw (laws.get_serves s' j gets_other text', laws.value-set_ne s k j v ok ne text)
            (got_same (text_reply (laws.value s j)) s s' o
              (rw (laws.get_serves s j gets text) at e)),
      )
