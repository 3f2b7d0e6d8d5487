-- ===== src/Store/Nodes.antt =====
-- Any order of the clients' commands keeps what the channels promise.
use mathlib.Core.Path.{◌≡◌, ◌∙◌, sym, ap, subst}
use mathlib.Core.Logic.{◌≢◌, ◌↔◌}
use mathlib.Core.Option.{some-injective}
use r2dtu_attention.Common.{ℕ, ◌<◌, some, get_elem?, arith}
use r2dtu_attention.Common.Texts.{c_str}
use r2dtu_attention.Store.Redis.{Redis, Laws}
use r2dtu_attention.Store.Channels.{topics, ready, numbered, done, Client}
use r2dtu_attention.Store.Clients.{max_channel, last_id, IsReadable, client_step-Effect}
use r2dtu_attention.Store.Agreement.{System, sends, Reach, here, next, IsStore, Holds, Inv}
use r2dtu_attention.Store.Effects.{Effect-Inv}

module _ (redis : Redis) (laws : Laws redis) where
  open redis use {Server}

  readable : (y : System redis laws) → Inv redis laws y → IsReadable redis laws y.server
  readable y v = record {
    sorted = v.store.sorted;
    counting = v.store.counting;
    small = λ t n e. let le = v.store.bounded t n e in omega (arith, v.small);
  }

  Reach-Inv : {y z : System redis laws} → Inv redis laws y → Reach redis laws y z → Inv redis laws z
  Reach-Inv v here = v
  Reach-Inv v (next {z} r (sends _ w i c c' e room f q)) =
      let u = Reach-Inv v r in
      Effect-Inv redis laws z w i c c' u e q room
        (client_step-Effect redis laws z.server c.topic c.phase (readable z u) room f)

  -- The nodes before they advertise: the numbers in use are small and belong to one topic each.
  pub record IsStart (y : System redis laws) : Type 0 where
    pub store : IsStore redis laws y.server
    pub small : last_id redis laws y.server < max_channel
    pub ready_all : (i : ℕ) (c : Client) → get_elem? y.clients i ≡ some c → c.phase ≡ ready

  IsStart-Inv : (y : System redis laws) → IsStart y → Inv redis laws y
  IsStart-Inv y h = record {
    store = h.store;
    small = h.small;
    each = λ i c e. subst (Holds redis laws y.server c.topic) (sym (h.ready_all i c e)) tt;
    apart = λ i j n c d e f p q. absurd (ready_ne n (sym (h.ready_all i c e) ∙ p));
  }
    where
      ready_ne : (m : ℕ) → ready ≢ numbered m
      ready_ne m k = cc

  -- However the commands of the clients are interleaved, two clients that are done have the same channel exactly if their topics are
  -- the same up to the first byte 0, where c_str ends. A command may be answered by an error, which ends its client. It is
  -- assumed that Redis keeps the laws, that before the clients begin the topics are absent or a sorted set and the counter absent or
  -- a number, that no channel belongs to two topics or is above the last number drawn, and that fewer than 2 ^ 31 - 1
  -- numbers are drawn.
  pub channels-agree :
      (y z : System redis laws) (i j n m : ℕ) (c d : Client)
      → IsStart y
      → Reach redis laws y z
      → get_elem? z.clients i ≡ some c
      → get_elem? z.clients j ≡ some d
      → c.phase ≡ done n
      → d.phase ≡ done m
      → (n ≡ m) ↔ (c_str c.topic ≡ c_str d.topic)
  channels-agree y z i j n m c d h r e f p q =
      let v = Reach-Inv (IsStart-Inv y h) r in
      let a = subst (Holds redis laws z.server c.topic) p (v.each i c e) in
      let b = subst (Holds redis laws z.server d.topic) q (v.each j d f) in
      (
        λ k. v.store.single c.topic d.topic m (a ∙ ap some k) b,
        λ k. some-injective n m (sym a ∙ ap (laws.score z.server topics) k ∙ b),
      )
