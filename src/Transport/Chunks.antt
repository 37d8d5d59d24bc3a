-- ===== src/Transport/Chunks.antt =====
-- What `readLoop` makes of messages that are written to a stream one after the other, without frames.
use Prim.Native.Nat.{min}
use eavesdrop.Prelude.{
  ℕ, zero, suc, ◌≤◌, ◌<◌, ◌≡◌, ◌≢◌, ◌⊎◌, inl, inr, refl, ap, sym, ◌∙◌, none, some, List, [], ◌∷◌,
  ◌++◌, Bytes, arith, length, take, drop, length-take-le, length-append,
}
use mathlib.Core.List.{append-nil}
use eavesdrop.Rpc.Codec.{Codec, RpcMessage}
use eavesdrop.Transport.{buffer_size, read, read_loop}

-- How JSON objects are told apart: a message is read back from its own bytes, no proper prefix of them
-- is an object, they begin with one and the same byte, `{`, and nothing that begins so may follow.
pub record ReadsObjects (codec : Codec) : Type 0 where
  pub opening : ℕ
  pub whole :
      (m : RpcMessage) (b : Bytes) → codec.encode_rpc m ≡ some b → codec.decode_rpc b ≡ some m
  pub opens :
      (m : RpcMessage) (b : Bytes)
      → codec.encode_rpc m ≡ some b
      → (rest : Bytes) × (b ≡ opening ∷ rest)
  pub proper :
      (m : RpcMessage) (b : Bytes) (k : ℕ)
      → codec.encode_rpc m ≡ some b
      → k < length b
      → codec.decode_rpc (take k b) ≡ none
  pub trailing :
      (m : RpcMessage) (b more : Bytes)
      → codec.encode_rpc m ≡ some b
      → codec.decode_rpc (b ++ opening ∷ more) ≡ none

-- The messages with their bytes.
pub data Encodes (codec : Codec) : List RpcMessage → List Bytes → Type 0 where
  nil : Encodes codec [] []
  cons :
      {m : RpcMessage} {b : Bytes} {ms : List RpcMessage} {bs : List Bytes}
      → codec.encode_rpc m ≡ some b
      → Encodes codec ms bs
      → Encodes codec (m ∷ ms) (b ∷ bs)

-- What is written to the stream.
abbrev pub written : List Bytes → Bytes
written [] = []
written (b ∷ bs) = b ++ written bs

length-read : (n : ℕ) (coming : Bytes) → length (read n coming).0 ≤ buffer_size
unfolding read
length-read n coming = omega (arith, length-take-le (min n buffer_size) coming)

-- A cut of a list behind another falls within it, or `j` entries behind it.
take-cases :
    (k : ℕ) (b c : Bytes)
    → ((k < length b) × (take k (b ++ c) ≡ take k b))
      ⊎ ((j : ℕ) × (take k (b ++ c) ≡ b ++ take j c) × (drop k (b ++ c) ≡ drop j c))
take-cases k [] c = inr (k, refl, refl)
take-cases zero (x ∷ b) c = inl (omega arith, refl)
take-cases (suc k) (x ∷ b) c = elim (take-cases k b c) [
  | inl (h, e) ↦ inl (omega (arith, h), ap (λ t. x ∷ t) e)
  | inr (j, e, f) ↦ inr (j, ap (λ t. x ∷ t) e, f)
]

drop-of_take_nil : (j : ℕ) (c : Bytes) → take j c ≡ [] → drop j c ≡ c
drop-of_take_nil zero c e = refl
drop-of_take_nil (suc j) [] e = refl
drop-of_take_nil (suc j) (x ∷ c) e = absurd (cc)

module _ (codec : Codec) (objects : ReadsObjects codec) where
  -- What comes behind a message begins as a message does.
  opens-written :
      {ms : List RpcMessage} {bs : List Bytes}
      → Encodes codec ms bs
      → (written bs ≡ []) ⊎ ((more : Bytes) × (written bs ≡ objects.opening ∷ more))
  opens-written nil = inl refl
  opens-written (cons {m} {b} {ms} {bs} e es) =
      let (rest, f) = objects.opens m b e in inr (rest ++ written bs, ap (λ t. t ++ written bs) f)

  -- A cut of it that is not empty begins so too.
  opens-take :
      {ms : List RpcMessage} {bs : List Bytes} (j : ℕ)
      → Encodes codec ms bs
      → (take j (written bs) ≡ [])
        ⊎ ((more : Bytes) × (take j (written bs) ≡ objects.opening ∷ more))
  opens-take zero es = inl refl
  opens-take (suc j) es = elim (opens-written es) [
    | inl e ↦ inl (ap (λ t. take (suc j) t) e)
    | inr (more, e) ↦ inr (take j more, ap (λ t. take (suc j) t) e)
  ]

  module _ (n : ℕ) (ns : List ℕ) (coming : Bytes) where
    delivered :
        (m : RpcMessage)
        → codec.decode_rpc (read n coming).0 ≡ some m
        → read_loop codec (n ∷ ns) coming ≡ m ∷ read_loop codec ns (read n coming).1
    unfolding read_loop
    delivered m e = rw (read_loop, e) refl

    dropped :
        codec.decode_rpc (read n coming).0 ≡ none
        → read_loop codec (n ∷ ns) coming ≡ read_loop codec ns (read n coming).1
    unfolding read_loop
    dropped e = rw (read_loop, e) refl

  -- If the codec tells JSON objects apart, then of messages written to a stream one after the other, a read
  -- delivers the first one exactly when it returns this message's bytes and nothing more, which are then
  -- at most 4096, and the loop goes on behind them; any other read delivers nothing, and the loop goes on
  -- behind the bytes that it took.
  pub first_read_decides :
      (n : ℕ) (ns : List ℕ) (m : RpcMessage) (b : Bytes) {ms : List RpcMessage} {bs : List Bytes}
      → codec.encode_rpc m ≡ some b
      → Encodes codec ms bs
      → (((read n (written (b ∷ bs))).0 ≡ b)
          × (length b ≤ 4096)
          × (read_loop codec (n ∷ ns) (written (b ∷ bs)) ≡ m ∷ read_loop codec ns (written bs)))
        ⊎ (((read n (written (b ∷ bs))).0 ≢ b)
            × (read_loop codec (n ∷ ns) (written (b ∷ bs))
                ≡ read_loop codec ns (read n (written (b ∷ bs))).1))
  unfolding read
  first_read_decides n ns m b {ms} {bs} e es =
      let coming = written (b ∷ bs) in
      elim (take-cases (min n buffer_size) b (written bs)) [
        | inl (short, cut) ↦ inr (
          λ same. absurd (
              omega (
                arith,
                short,
                ap length same,
                length-take-le (min n buffer_size) (written (b ∷ bs)),
              )),
          dropped n ns coming (ap codec.decode_rpc cut ∙ objects.proper m b _ e short),
        )
        | inr (j, cut, left) ↦ elim (opens-take j es) [
          | inl none_more ↦
              let all : (read n coming).0 ≡ b = cut ∙ (ap (λ t. b ++ t) none_more ∙ append-nil b) in
              inl (
                all,
                omega (arith, ap length all, length-read n coming),
                delivered n ns coming m (ap codec.decode_rpc all ∙ objects.whole m b e)
                    ∙ ap (λ t. m ∷ read_loop codec ns t)
                        (left ∙ drop-of_take_nil j (written bs) none_more),
              )
          | inr (more, begins) ↦ inr (
            λ same. absurd (
                omega (
                  arith,
                  ap length (sym same ∙ (cut ∙ ap (λ t. b ++ t) begins)),
                  length-append b (objects.opening ∷ more),
                )),
            dropped n ns coming
                (ap codec.decode_rpc (cut ∙ ap (λ t. b ++ t) begins) ∙ objects.trailing m b more e),
          )
        ]
      ]
