-- ===== src/Sending/Keys.antt =====
-- The keys of queued events: a key is parsed back to where its event goes, and no destination's
-- prefix covers another's keys.
use mathlib.Core.List.{append_assoc}
use grapevine.Prelude.{
  ℕ, true, false, [], ◌∷◌, ◌++◌, nat_eq, ok, ℕ-Eq, ◌≡◌, ◌≢◌, refl, ap, arith, drop, ==_iff,
  Bool-cases, inl, inr,
}
use grapevine.Utils.{Bytes, starts_with}
use grapevine.Utils.Utf8.{string_from_bytes, is_utf8, is_utf8_no_ff}
use grapevine.Database.Parts.{split_ff-part}
use grapevine.Sending.{
  Destination, appservice, push, normal, get_prefix, event_of, Ruma, parse_appservice, parse_push,
  parse_normal, parse_servercurrentevent,
}

start_of :
    (c : ℕ) (s rest : Bytes)
    → nat_eq c 0xff ≡ false
    → starts_with (c ∷ []) s ≡ false
    → starts_with (c ∷ []) (s ++ 0xff ∷ rest) ≡ false
unfolding starts_with
start_of c [] rest h k = ground arith
start_of c (b ∷ s) rest h k = k

starts_with_rest : (p k : Bytes) → starts_with p k ≡ true → (rest : Bytes) × (k ≡ p ++ rest)
unfolding starts_with
starts_with_rest [] k h = (k, refl)
starts_with_rest (b ∷ p) [] h = cc
starts_with_rest (b ∷ p) (c ∷ k) h =
    let (rest, same) = starts_with_rest p k (ground arith) in (rest, ground (arith, ==_iff b c))

module _ (R : Ruma) where
  -- A destination whose names are texts that ruma accepts.
  abbrev pub IsDestination : Destination → Type 0
  IsDestination (appservice server) = is_utf8 server ≡ true
  IsDestination (push user pushkey) =
      (is_utf8 user ≡ true) × (R.is_user_id user ≡ true) × (is_utf8 pushkey ≡ true)
  IsDestination (normal server) = (is_utf8 server ≡ true) × (R.is_server_name server ≡ true)

  normal_parsed :
      (server event value : Bytes)
      → IsDestination (normal server)
      → parse_normal R (server ++ 0xff ∷ event) value ≡ ok (normal server, event_of event value)
  unfolding parse_normal string_from_bytes
  normal_parsed server event value h =
      ground (arith, split_ff-part server event, is_utf8_no_ff server)

  -- For a destination of valid UTF-8 names that ruma accepts, parse_servercurrentevent of its
  -- prefix followed by any event bytes gives this destination, with the event as a PDU id if the
  -- value is empty and the value as an EDU otherwise.
  pub parse-get_prefix :
      (d : Destination) (event value : Bytes)
      → IsDestination d
      → parse_servercurrentevent R (get_prefix d ++ event) value ≡ ok (d, event_of event value)
  unfolding parse_appservice parse_push get_prefix starts_with string_from_bytes drop
  parse-get_prefix (appservice server) event value h = rw (append_assoc server (0xff ∷ []) event) (
      unfold parse_servercurrentevent in
      ground (arith, split_ff-part server event, is_utf8_no_ff server))
  parse-get_prefix (push user pushkey) event value h =
      rw
        (
          append_assoc user (0xff ∷ (pushkey ++ 0xff ∷ [])) event,
          append_assoc pushkey (0xff ∷ []) event,
        )
        (unfold parse_servercurrentevent in
          ground (
            arith,
            split_ff-part user (pushkey ++ 0xff ∷ event),
            split_ff-part pushkey event,
            is_utf8_no_ff user,
            is_utf8_no_ff pushkey,
          ))
  parse-get_prefix (normal server) event value h =
      let plain = R.server_name_start server h.1 in
      rw append_assoc (
        unfold parse_servercurrentevent in
        rw (start_of b'+' server event refl plain.0, start_of b'$' server event refl plain.1)
          (normal_parsed server event value h))

  -- For two different valid destinations the prefix of the one starts no key of the other.
  pub get_prefix_apart :
      (d e : Destination) (event : Bytes)
      → IsDestination d
      → IsDestination e
      → d ≢ e
      → starts_with (get_prefix d) (get_prefix e ++ event) ≡ false
  get_prefix_apart d e event hd he ne =
      elim (Bool-cases (starts_with (get_prefix d) (get_prefix e ++ event))) [
        | inl covers ↦
            let (rest, same) = starts_with_rest (get_prefix d) (get_prefix e ++ event) covers in
            absurd (
              ne (
                cc (
                  parse-get_prefix d rest [] hd,
                  parse-get_prefix e event [] he,
                  ap (λ k. parse_servercurrentevent R k []) same,
                )))
        | inr apart ↦ apart
      ]
