-- ===== src/Sdk/Register/Keeps.antt =====
-- What holds of a node from its handshake on, and the steps of a registration that keep it.
use mathlib.Core.Path.{subst}
use zenoh_ros2_nostd.Common.{
  ℕ, ◌+◌, ◌≤◌, ◌<◌, ◌≡◌, refl, List, [], ◌∷◌, ◌++◌, All, length, length-append, true, Bool-cases,
  inl, inr, ltb, leb, arith, Outcome, ok, err, panic,
}
use zenoh_ros2_nostd.Error.{TransportError}
use zenoh_ros2_nostd.Error.Top.{Error}
use zenoh_ros2_nostd.Transport.Link.{Io, bind_outcome, ◌>>=◌, pure}
use zenoh_ros2_nostd.Transport.Vbyte.{u64_size}
use zenoh_ros2_nostd.Transport.Codec.Service.{u32_size}
use zenoh_ros2_nostd.Session.{u16_size}
use zenoh_ros2_nostd.Ros2.Locality.{is_session_local}
use zenoh_ros2_nostd.Sdk.Statics.{push_within}
use zenoh_ros2_nostd.Sdk.Node.{
  Node, SubscriberEntry, TimerEntry, max_pubs, max_subs, max_timers, min_lease_ms, get_sn,
  advance_sn, take_key, take_entity, on_transport,
}
use zenoh_ros2_nostd.Sdk.Timers.{register_timer}
use zenoh_ros2_nostd.Sdk.Register.{add_publisher, add_subscriber}

-- An entry of the routing table: the number of its key is a u16, and 0 for local messages.
abbrev pub IsEntry : SubscriberEntry → Type 0
IsEntry e = (e.key_id < u16_size) × (is_session_local e.locality ≡ true → e.key_id ≡ 0)

-- The counters are of their widths, the vectors within their capacities, and the lease is not below
-- the least that is accepted.
pub record Valid (sn key_id_gen entity_id_gen request_id_gen lease_ms : ℕ) (publishers : List ℕ)
    (subscribers : List SubscriberEntry) (timers : List TimerEntry) : Type 0 where
  pub sn_width : sn < u64_size
  pub key_width : key_id_gen < u16_size
  pub entity_width : entity_id_gen < u32_size
  pub request_width : request_id_gen < u32_size
  pub lease_floor : min_lease_ms ≤ lease_ms
  pub pubs_within : length publishers ≤ max_pubs
  pub subs_within : length subscribers ≤ max_subs
  pub timers_within : length timers ≤ max_timers
  pub entries : All IsEntry subscribers

abbrev pub IsNode : {L : Type 0} → Node L → Type 0
IsNode n =
    Valid n.sn n.key_id_gen n.entity_id_gen n.request_id_gen n.lease_ms n.publishers n.subscribers
      n.timers

pub ok_injective : {A : Type 0} {a b : A} → ◌≡◌ {A = Outcome Error A} (ok a) (ok b) → a ≡ b
ok_injective e = cc

-- A call that keeps the invariant, whatever it ends in, with what is known of its value.
pub record Keeps {L A : Type 0} (Q : A → Type 0) (m : Io (Node L) Error A) : Type 0 where
  pub keeps : (n : Node L) → IsNode n → IsNode (m n).1 × ((a : A) → (m n).0 ≡ ok a → Q a)

abbrev pub Known : {A : Type 0} → A → Type 0
Known a = Unit {0}

length-push_within :
    {A : Type 0} (most : ℕ) (xs : List A) (x : A)
    → length xs ≤ most
    → length (push_within most xs x) ≤ most
length-push_within most xs x h = ground (arith, length-append xs (x ∷ []))

All-snoc :
    (xs : List SubscriberEntry) (x : SubscriberEntry)
    → All IsEntry xs
    → IsEntry x
    → All IsEntry (xs ++ (x ∷ []))
All-snoc [] x h hx = (hx, tt)
All-snoc (y ∷ xs) x (h, hs) hx = (h, All-snoc xs x hs hx)

entries-push_within :
    (xs : List SubscriberEntry) (x : SubscriberEntry)
    → All IsEntry xs
    → IsEntry x
    → All IsEntry (push_within max_subs xs x)
entries-push_within xs x h hx = elim (Bool-cases (ltb (length xs) max_subs)) [
  | inl room ↦ rw room (All-snoc xs x h hx)
  | inr full ↦ rw full h
]

module _ {L : Type 0} where
  pub >>=-Keeps :
      {A B : Type 0} (Q : A → Type 0) (R : B → Type 0) (m : Io (Node L) Error A)
      (f : A → Io (Node L) Error B)
      → Keeps Q m
      → ((a : A) → Q a → Keeps R (f a))
      → Keeps R (m >>= f)
  >>=-Keeps {A} {B} Q R m f hm hf = record {
    keeps = λ n v. let (v', q) = hm.keeps n v in go (m n).0 q (m n).1 v';
  }
    where
      go :
          (o : Outcome Error A)
          → ((a : A) → o ≡ ok a → Q a)
          → (n' : Node L) → IsNode n'
          → IsNode (bind_outcome o n' f).1 × ((b : B) → (bind_outcome o n' f).0 ≡ ok b → R b)
      go (ok a) q n' v' = (hf a (q a refl)).keeps n' v'
      go (err e) q n' v' = (v', λ b h. cc)
      go panic q n' v' = (v', λ b h. cc)

  pub >>=-Keeps_any :
      {A B : Type 0} (R : B → Type 0) (m : Io (Node L) Error A) (f : A → Io (Node L) Error B)
      → Keeps Known m
      → ((a : A) → Keeps R (f a))
      → Keeps R (m >>= f)
  >>=-Keeps_any R m f hm hf = >>=-Keeps Known R m f hm (λ a q. hf a)

  pub pure-Keeps : {A : Type 0} (o : Outcome Error A) → Keeps {L = L} Known (pure o)
  pure-Keeps o = record { keeps = λ n v. (v, λ a h. tt) }

  pub pure-Keeps_value : {A : Type 0} (Q : A → Type 0) (a : A) → Q a → Keeps {L = L} Q (pure (ok a))
  pure-Keeps_value Q a q = record { keeps = λ n v. (v, λ b h. subst Q (ok_injective h) q) }

  pub get_sn-Keeps : Keeps {L = L} Known get_sn
  get_sn-Keeps = record { keeps = λ n v. (v, λ a h. tt) }

  pub advance_sn-Keeps : Keeps {L = L} Known advance_sn
  advance_sn-Keeps = record {
    keeps = λ n v. (
      record {
        sn_width = omega arith;
        key_width = v.key_width;
        entity_width = v.entity_width;
        request_width = v.request_width;
        lease_floor = v.lease_floor;
        pubs_within = v.pubs_within;
        subs_within = v.subs_within;
        timers_within = v.timers_within;
        entries = v.entries;
      },
      λ a h. tt,
    );
  }

  pub on_transport-Keeps : {A : Type 0} (m : Io L TransportError A) → Keeps Known (on_transport m)
  on_transport-Keeps m = record { keeps = λ n v. (v, λ a h. tt) }

  pub take_key-Keeps : Keeps {L = L} (λ k. k < u16_size) take_key
  take_key-Keeps = record {
    keeps = λ n v. (
      record {
        sn_width = v.sn_width;
        key_width = omega arith;
        entity_width = v.entity_width;
        request_width = v.request_width;
        lease_floor = v.lease_floor;
        pubs_within = v.pubs_within;
        subs_within = v.subs_within;
        timers_within = v.timers_within;
        entries = v.entries;
      },
      λ a h. ground (arith, v.key_width),
    );
  }

  pub take_entity-Keeps : Keeps {L = L} Known take_entity
  take_entity-Keeps = record {
    keeps = λ n v. elim (Bool-cases (leb u32_size (n.entity_id_gen + 1))) [
      | inl full ↦ rw full (v, λ a h. tt)
      | inr free ↦ rw free (
        record {
          sn_width = v.sn_width;
          key_width = v.key_width;
          entity_width = ground arith;
          request_width = v.request_width;
          lease_floor = v.lease_floor;
          pubs_within = v.pubs_within;
          subs_within = v.subs_within;
          timers_within = v.timers_within;
          entries = v.entries;
        },
        λ a h. tt,
      )
    ];
  }

  pub add_publisher-Keeps : (address : ℕ) → Keeps {L = L} Known (add_publisher address)
  add_publisher-Keeps address = record {
    keeps = λ n v. (
      record {
        sn_width = v.sn_width;
        key_width = v.key_width;
        entity_width = v.entity_width;
        request_width = v.request_width;
        lease_floor = v.lease_floor;
        pubs_within = length-push_within max_pubs n.publishers address v.pubs_within;
        subs_within = v.subs_within;
        timers_within = v.timers_within;
        entries = v.entries;
      },
      λ a h. tt,
    );
  }

  pub add_subscriber-Keeps :
      (entry : SubscriberEntry) → IsEntry entry → Keeps {L = L} Known (add_subscriber entry)
  add_subscriber-Keeps entry e = record {
    keeps = λ n v. (
      record {
        sn_width = v.sn_width;
        key_width = v.key_width;
        entity_width = v.entity_width;
        request_width = v.request_width;
        lease_floor = v.lease_floor;
        pubs_within = v.pubs_within;
        subs_within = length-push_within max_subs n.subscribers entry v.subs_within;
        timers_within = v.timers_within;
        entries = entries-push_within n.subscribers entry v.entries e;
      },
      λ a h. tt,
    );
  }

  -- `register_timer` keeps the invariant as well.
  pub register_timer-IsNode :
      (now period : ℕ) (n : Node L) → IsNode n → IsNode (register_timer now period n).1
  unfolding register_timer
  register_timer-IsNode now period n v = record {
    sn_width = v.sn_width;
    key_width = v.key_width;
    entity_width = v.entity_width;
    request_width = v.request_width;
    lease_floor = v.lease_floor;
    pubs_within = v.pubs_within;
    subs_within = v.subs_within;
    timers_within = length-push_within max_timers n.timers _ v.timers_within;
    entries = v.entries;
  }
