-- ===== src/Store/Redis.antt =====
-- The server, and the methods of KVStore.
use Prim.Native.Char.{code}
use Prim.Native.String as Text
use text.Mathlib.Text.{starts_with}
use mathlib.Core.Logic.{◌≢◌}
use r2dtu_attention.Common.{
  ℕ, suc, ◌%◌, ◌≤◌, ◌≡◌, ◌⊎◌, Bool, Option, none, some, String, List, [], ◌∷◌, if◌then◌else◌, ◌==◌,
  ◌>>=◌,
}
use r2dtu_attention.Common.Texts.{◌<>◌, to_string, c_str}
use r2dtu_attention.Common.Decimals.{stoi}

-- redisReply. A negative integer is given by 2 ^ 64 more; no reply at all, when the connection is lost, counts as an error, since the
-- code ends there too.
pub data Reply : Type 0 where
  status : String → Reply
  integer : ℕ → Reply
  string : String → Reply
  nil : Reply
  error : String → Reply

-- The server and the connection to it.
pub record Redis : Type 1 where
  pub Server : Type 0
  pub command : Server → List String → Reply × Server

-- KVStore::UpdateMode
pub data UpdateMode : Type 0 where
  always nx xx : UpdateMode

-- if (s.back() == '\\n') s.pop_back(); the value of an empty text has no last byte.
unfoldable pub without_newline : String → Option String
without_newline Text.[] = none
without_newline (Text.◌∷◌ c Text.[]) = some (if code c == 10 then "" else Text.◌∷◌ c Text.[])
without_newline (Text.◌∷◌ c (Text.◌∷◌ d s)) =
    without_newline (Text.◌∷◌ d s) >>= λ t. some (Text.◌∷◌ c t)

module _ (redis : Redis) where
  open redis use {Server, command}

  -- The bool of SET's reply; a reply of another type is an abort.
  unfoldable pub status_reply : Reply × Server → Option (Bool × Server)
  status_reply (status s, server) = some (starts_with s "OK", server)
  status_reply (_, server) = none

  unfoldable pub integer_reply : Reply × Server → Option (ℕ × Server)
  integer_reply (integer n, server) = some (n, server)
  integer_reply (_, server) = none

  -- The format ends with a newline, which becomes part of the last word.
  unfoldable pub set : Server → UpdateMode → String → String → Option (Bool × Server)
  unfolding status_reply c_str
  set s always path value =
      status_reply (command s ("SET" ∷ c_str path ∷ (c_str value <> "\n") ∷ []))
  set s nx path value = status_reply (command s ("SET" ∷ c_str path ∷ c_str value ∷ "NX\n" ∷ []))
  set s xx path value = status_reply (command s ("SET" ∷ c_str path ∷ c_str value ∷ "XX\n" ∷ []))

  unfoldable pub del : Server → String → Option (Bool × Server)
  unfolding integer_reply c_str
  del s path = do (n, s') ← integer_reply (command s ("DEL" ∷ c_str path ∷ [])); some (n == 1, s')

  unfoldable pub exists : Server → String → Option (Bool × Server)
  unfolding integer_reply c_str
  exists s path = do
    (n, s') ← integer_reply (command s ("EXISTS" ∷ c_str path ∷ []))
    some (n == 1, s')

  unfoldable pub got : Reply × Server → Option (Option String × Server)
  unfolding without_newline c_str
  got (string t, s) = without_newline (c_str t) >>= λ u. some (some u, s)
  got (nil, s) = some (none, s)
  got (_, s) = none

  unfoldable pub get : Server → String → Option (Option String × Server)
  unfolding got c_str
  get s path = got (command s ("GET" ∷ c_str path ∷ []))

  -- The cast to uint32_t is a remainder.
  unfoldable pub incr : Server → String → Option (ℕ × Server)
  unfolding integer_reply c_str
  incr s path = do
    (n, s') ← integer_reply (command s ("INCR" ∷ c_str path ∷ []))
    some (n % 4294967296, s')

  -- A mode other than NX is sent as XX.
  abbrev pub mode_cmd : UpdateMode → String
  mode_cmd nx = "NX"
  mode_cmd _ = "XX"

  unfoldable pub zadd : Server → UpdateMode → String → String → ℕ → Option (Bool × Server)
  unfolding integer_reply c_str
  zadd s mode path elem index = do
    (n, s') ←
        integer_reply
          (command s ("ZADD" ∷ c_str path ∷ mode_cmd mode ∷ to_string index ∷ c_str elem ∷ []))
    some (n == 1, s')

  -- std::stoi gives an int, which becomes a uint32_t; the scores that the program stores are not negative.
  unfoldable pub scored : Reply × Server → Option (Option ℕ × Server)
  unfolding c_str
  scored (string t, s) = elim (stoi (c_str t)) [
    | some (negative, n) ↦ if negative then none else some (some n, s)
    | none ↦ none
  ]
  scored (nil, s) = some (none, s)
  scored (_, s) = none

  unfoldable pub zscore : Server → String → String → Option (Option ℕ × Server)
  unfolding scored c_str
  zscore s path elem = scored (command s ("ZSCORE" ∷ c_str path ∷ c_str elem ∷ []))

-- The reply to ZSCORE.
abbrev pub score_reply : Option ℕ → Reply
score_reply none = nil
score_reply (some n) = string (to_string n)

abbrev pub text_reply : Option String → Reply
text_reply none = nil
text_reply (some t) = string t

-- ZADD with NX gives a member a score only if it has none.
abbrev pub score_or : Option ℕ → ℕ → Option ℕ
score_or none n = some n
score_or (some m) n = some m

-- Scores are doubles; up to 2 ^ 53 every whole number is one.
abbrev pub max_score : ℕ
max_score = 9007199254740992

-- What Redis documents of the commands. Each of them may be answered by an error instead: for a key of another type, for a value
-- that is not an integer or that overflows, and while the server has no memory, loads its data or is a replica. The laws say what a
-- command that succeeds has done, and when one succeeds.
module _ (redis : Redis) where
  open redis use {Server, command}

  abbrev pub after_command : Server → List String → Server
  after_command s words = (command s words).1

  abbrev pub reply_to : Server → List String → Reply
  reply_to s words = (command s words).0

  pub record Laws : Type 1 where
    -- The server executes the command if it gets it now, unless the key is not of the command's type: its data is loaded, it has
    -- the memory, no word is longer than it accepts.
    pub IsServing : Server → List String → Type 0
    -- The key is absent, or a sorted set whose scores are whole numbers from 0 to max_score; the server keeps it, as it keeps the
    -- keys below: they have no time to live and are not evicted.
    pub IsSorted : Server → String → Type 0
    -- The key is absent, or holds an integer.
    pub IsCounter : Server → String → Type 0
    -- The key is absent, or holds a string.
    pub IsText : Server → String → Type 0
    pub score : Server → String → String → Option ℕ
    -- The integer that the key holds, where an absent key is 0; a negative one is given by 2 ^ 64 more.
    pub counter : Server → String → ℕ
    pub value : Server → String → Option String
    pub zscore_reply :
        (s : Server) (k e : String)
        → IsSorted s k
        → (command s ("ZSCORE" ∷ k ∷ e ∷ []) ≡ (score_reply (score s k e), s))
          ⊎ (t : String) × (reply_to s ("ZSCORE" ∷ k ∷ e ∷ []) ≡ error t)
    pub zscore_serves :
        (s : Server) (k e : String)
        → IsServing s ("ZSCORE" ∷ k ∷ e ∷ [])
        → IsSorted s k
        → command s ("ZSCORE" ∷ k ∷ e ∷ []) ≡ (score_reply (score s k e), s)
    pub incr_reply :
        (s : Server) (k : String) (n : ℕ)
        → reply_to s ("INCR" ∷ k ∷ []) ≡ integer n
        → IsCounter s k
        → n ≡ suc (counter s k) % 18446744073709551616
    pub incr_serves :
        (s : Server) (k : String)
        → IsServing s ("INCR" ∷ k ∷ [])
        → IsCounter s k
        → counter s k ≢ 9223372036854775807
        → (n : ℕ) × (reply_to s ("INCR" ∷ k ∷ []) ≡ integer n)
    pub counter-incr :
        (s : Server) (k : String) (n : ℕ)
        → reply_to s ("INCR" ∷ k ∷ []) ≡ integer n
        → IsCounter s k
        → counter (after_command s ("INCR" ∷ k ∷ [])) k ≡ n
    pub score-incr :
        (s : Server) (j k e : String) (n : ℕ)
        → reply_to s ("INCR" ∷ j ∷ []) ≡ integer n
        → j ≢ k
        → IsSorted s k
        → score (after_command s ("INCR" ∷ j ∷ [])) k e ≡ score s k e
    pub IsSorted-incr :
        (s : Server) (j k : String) (n : ℕ)
        → reply_to s ("INCR" ∷ j ∷ []) ≡ integer n
        → j ≢ k
        → IsSorted s k
        → IsSorted (after_command s ("INCR" ∷ j ∷ [])) k
    pub IsCounter-incr :
        (s : Server) (k : String) (n : ℕ)
        → IsCounter s k
        → reply_to s ("INCR" ∷ k ∷ []) ≡ integer n
        → IsCounter (after_command s ("INCR" ∷ k ∷ [])) k
    pub zadd_serves :
        (s : Server) (k e : String) (n : ℕ)
        → IsServing s ("ZADD" ∷ k ∷ "NX" ∷ to_string n ∷ e ∷ [])
        → IsSorted s k
        → n ≤ max_score
        → (m : ℕ) × (reply_to s ("ZADD" ∷ k ∷ "NX" ∷ to_string n ∷ e ∷ []) ≡ integer m)
    pub score-zadd_self :
        (s : Server) (k e : String) (n m : ℕ)
        → reply_to s ("ZADD" ∷ k ∷ "NX" ∷ to_string n ∷ e ∷ []) ≡ integer m
        → IsSorted s k
        → n ≤ max_score
        → score (after_command s ("ZADD" ∷ k ∷ "NX" ∷ to_string n ∷ e ∷ [])) k e
          ≡ score_or (score s k e) n
    pub score-zadd_ne :
        (s : Server) (k e other : String) (n m : ℕ)
        → reply_to s ("ZADD" ∷ k ∷ "NX" ∷ to_string n ∷ e ∷ []) ≡ integer m
        → IsSorted s k
        → e ≢ other
        → score (after_command s ("ZADD" ∷ k ∷ "NX" ∷ to_string n ∷ e ∷ [])) k other
          ≡ score s k other
    pub IsSorted-zadd :
        (s : Server) (k e : String) (n m : ℕ)
        → reply_to s ("ZADD" ∷ k ∷ "NX" ∷ to_string n ∷ e ∷ []) ≡ integer m
        → IsSorted s k
        → n ≤ max_score
        → IsSorted (after_command s ("ZADD" ∷ k ∷ "NX" ∷ to_string n ∷ e ∷ [])) k
    pub counter-zadd :
        (s : Server) (k e j : String) (n m : ℕ)
        → reply_to s ("ZADD" ∷ k ∷ "NX" ∷ to_string n ∷ e ∷ []) ≡ integer m
        → k ≢ j
        → IsCounter s j
        → counter (after_command s ("ZADD" ∷ k ∷ "NX" ∷ to_string n ∷ e ∷ [])) j ≡ counter s j
    pub IsCounter-zadd :
        (s : Server) (k e j : String) (n m : ℕ)
        → reply_to s ("ZADD" ∷ k ∷ "NX" ∷ to_string n ∷ e ∷ []) ≡ integer m
        → k ≢ j
        → IsCounter s j
        → IsCounter (after_command s ("ZADD" ∷ k ∷ "NX" ∷ to_string n ∷ e ∷ [])) j
    pub set_serves :
        (s : Server) (k v : String)
        → IsServing s ("SET" ∷ k ∷ v ∷ [])
        → reply_to s ("SET" ∷ k ∷ v ∷ []) ≡ status "OK"
    pub value-set_self :
        (s : Server) (k v : String)
        → reply_to s ("SET" ∷ k ∷ v ∷ []) ≡ status "OK"
        → value (after_command s ("SET" ∷ k ∷ v ∷ [])) k ≡ some v
    pub value-set_ne :
        (s : Server) (k j v : String)
        → reply_to s ("SET" ∷ k ∷ v ∷ []) ≡ status "OK"
        → k ≢ j
        → IsText s j
        → value (after_command s ("SET" ∷ k ∷ v ∷ [])) j ≡ value s j
    pub IsText-set_self :
        (s : Server) (k v : String)
        → reply_to s ("SET" ∷ k ∷ v ∷ []) ≡ status "OK"
        → IsText (after_command s ("SET" ∷ k ∷ v ∷ [])) k
    pub IsText-set_ne :
        (s : Server) (k j v : String)
        → reply_to s ("SET" ∷ k ∷ v ∷ []) ≡ status "OK"
        → k ≢ j
        → IsText s j
        → IsText (after_command s ("SET" ∷ k ∷ v ∷ [])) j
    pub get_serves :
        (s : Server) (k : String)
        → IsServing s ("GET" ∷ k ∷ [])
        → IsText s k
        → command s ("GET" ∷ k ∷ []) ≡ (text_reply (value s k), s)
