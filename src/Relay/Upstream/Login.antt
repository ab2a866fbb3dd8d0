-- ===== src/Relay/Upstream/Login.antt =====
-- The upstream sends nothing to a peer that has not named the user that it is authenticated as.
use tidegauge_backend.Prelude.{
  String, List, [], ◌∷◌, none, some, ◌≡◌, refl, ◌⊎◌, inl, inr, ◌==◌, string_keys, Bool-cases,
}
use tidegauge_backend.Text.{trim_space}
use tidegauge_backend.Exec.{pure, raise, ◌>>=◌}
use tidegauge_backend.Relay.{UpstreamStore, Codec, Peer, recv, received}
use tidegauge_backend.Relay.Wire.{
  RelayMessage, downstream_hello, upstream_hello, config_batch, data_batch, status_event,
  available_items, stations_items_latest, stations_status_latest, error_frame, unset,
  RelayDownstreamHello,
}
use tidegauge_backend.Relay.Upstream.{Auth, Event, recv_downstream_hello, check_hello, stream_relay}

-- The first frame is a hello of that user.
pub IsHello : String → List RelayMessage → Type 0
IsHello username inbox =
    (hello : RelayDownstreamHello) × (rest : List RelayMessage) × (inbox
      ≡ downstream_hello (some hello) ∷ rest)
    × (trim_space hello.username ≡ username)

module _ {D : Type 0} (codec : Codec) (auth : Auth) (store : UpstreamStore) where
  -- Whatever a session of the relay's upstream is given: unless the first frame of its peer is a hello
  -- whose user name, without the space around it, is the authenticated one, nothing is sent.
  pub outbox-stream_relay :
      (username : String) (events : List Event) (s : Peer D)
      → ((stream_relay codec auth store username events s).1.outbox ≡ s.outbox)
        ⊎ IsHello username s.inbox
  unfolding stream_relay recv_downstream_hello check_hello recv received ◌>>=◌ pure raise IsHello
  outbox-stream_relay username events s = first s.inbox refl
    where
      first :
          (inbox : List RelayMessage)
          → s.inbox ≡ inbox
          → ((stream_relay codec auth store username events s).1.outbox ≡ s.outbox)
            ⊎ IsHello username inbox
      first [] e = inl (rw e)
      first (downstream_hello none ∷ rest) e = inl (rw e)
      first (upstream_hello _ ∷ rest) e = inl (rw e)
      first (config_batch _ ∷ rest) e = inl (rw e)
      first (data_batch _ ∷ rest) e = inl (rw e)
      first (status_event _ ∷ rest) e = inl (rw e)
      first (available_items _ ∷ rest) e = inl (rw e)
      first (stations_items_latest _ ∷ rest) e = inl (rw e)
      first (stations_status_latest _ ∷ rest) e = inl (rw e)
      first (error_frame _ ∷ rest) e = inl (rw e)
      first (unset ∷ rest) e = inl (rw e)
      first (downstream_hello (some hello) ∷ rest) e =
          elim (Bool-cases (trim_space hello.username == "")) [
            | inl empty ↦ inl (rw (e, empty))
            | inr named ↦ elim (Bool-cases (trim_space hello.username == username)) [
              | inl same ↦ inr (
                hello,
                rest,
                refl,
                (string_keys.beq_iff (trim_space hello.username) username).0 same,
              )
              | inr other ↦ inl (rw (e, named, named, other))
            ]
          ]
