-- ===== src/Transport/Streams.antt =====
-- What becomes of a stream that is broken.
use eavesdrop.Prelude.{
  ℕ, ◌≡◌, refl, ◌∙◌, String, Bool, false, some, List, [], ◌∷◌, Bytes, arith, string_eq, All,
}
use eavesdrop.GoMap.{lookup}
use eavesdrop.Transport.{HostLibrary, LibP2pTransport, stream_to, send_msg}

module _ {Host : Type 0} (lib : HostLibrary Host) (id : String) where
  -- The messages one after the other, with what each `SendMsg` returned.
  abbrev pub send_all : List Bytes → LibP2pTransport Host → List Bool × LibP2pTransport Host
  send_all [] lt = ([], lt)
  send_all (msg ∷ msgs) lt =
      let (sent, next) = send_msg lib id msg lt in
      let (later, last) = send_all msgs next in (sent ∷ later, last)

  module _ (peer_id : String) (st : ℕ) (known : lib.decode_id id ≡ some peer_id)
      (broken : (msg : Bytes) (h : Host) → (lib.write st msg h).0 ≡ false) where
    send_broken :
        (msg : Bytes) (lt : LibP2pTransport Host)
        → lookup peer_id lt.streams ≡ some st
        → ((send_msg lib id msg lt).0 ≡ false) × ((send_msg lib id msg lt).1.streams ≡ lt.streams)
    unfolding send_msg stream_to
    send_broken msg lt e = ground (arith, broken msg lt.host)

    -- If the ID of a peer can be decoded, and every write to the stream that is cached for it fails, then
    -- every message to that peer fails, and the cached streams stay as they are.
    pub broken_stream_kept :
        (msgs : List Bytes) (lt : LibP2pTransport Host)
        → lookup peer_id lt.streams ≡ some st
        → All (λ sent. sent ≡ false) (send_all msgs lt).0
          × ((send_all msgs lt).1.streams ≡ lt.streams)
    broken_stream_kept [] lt e = (tt, refl)
    broken_stream_kept (msg ∷ msgs) lt e =
        let (failed, same) = send_broken msg lt e in
        let (later, kept) = broken_stream_kept msgs (send_msg lib id msg lt).1 (rw same e) in
        ((failed, later), kept ∙ same)
