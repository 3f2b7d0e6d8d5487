-- ===== src/Store/Channels.antt =====
-- Node::advertise in include/core/Node.h: the channel of a topic, on which all nodes have to agree. A node asks for the
-- score of the topic; if there is none it draws a number, offers it as the score, and asks again. Other
-- nodes may act between these commands, so a client of the store is also a machine of phases.
use r2dtu_attention.Common.{ℕ, Option, none, some, String, ◌>>=◌}
use r2dtu_attention.Store.Redis.{Redis, nx, incr, zadd, zscore}

abbrev pub topics : String
topics = "topic:topics"

abbrev pub next_id : String
next_id = "topic:next_id"

-- Where one client is in advertise.
pub data Phase : Type 0 where
  ready missed : Phase
  numbered : ℕ → Phase
  added : Phase
  done : ℕ → Phase

pub record Client : Type 0 where
  pub topic : String
  pub phase : Phase

abbrev pub found : Client → Option ℕ → Phase → Client
found c none p = record c { phase = p }
found c (some id) p = record c { phase = done id }

module _ (redis : Redis) where
  open redis use {Server}

  -- The else branch of advertise, for a topic that has no publisher yet. The second answer must not be empty.
  unfoldable pub new_channel : Server → String → Option (ℕ × Server)
  unfolding incr zadd zscore
  new_channel s topic = do
    (id, s₂) ← incr redis s next_id
    (is_new, s₃) ← zadd redis s₂ nx topics topic id
    (new_opt, s₄) ← zscore redis s₃ topics topic
    elim new_opt [ some channel ↦ some (channel, s₄) | none ↦ none ]

  unfoldable pub channel_id : Server → String → Option (ℕ × Server)
  unfolding new_channel
  channel_id s topic = do
    (opt, s₁) ← zscore redis s topics topic
    elim opt [ some id ↦ some (id, s₁) | none ↦ new_channel s₁ topic ]

  -- The next command of a client; a client that is done, or whose second answer is empty, has none.
  unfoldable pub client_step : Server → Client → Option (Client × Server)
  unfolding zscore incr zadd
  client_step s c = elim c.phase [
    | ready ↦ zscore redis s topics c.topic >>= λ (opt, s'). some (found c opt missed, s')
    | missed ↦ incr redis s next_id >>= λ (id, s'). some (record c { phase = numbered id }, s')
    | numbered id ↦
        zadd redis s nx topics c.topic id >>= λ (is_new, s'). some (record c { phase = added }, s')
    | added ↦ zscore redis s topics c.topic >>= λ (opt, s'). elim opt [
      | some id ↦ some (record c { phase = done id }, s')
      | none ↦ none
    ]
    | done id ↦ none
  ]
