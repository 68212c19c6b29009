-- ===== src/StreamLaws/Keeping.antt =====
-- How an invariant of the parts of an operation becomes one of the operation.
use copper.Prelude.{
  ℕ, ◌≤◌, ◌<◌, ◌≡◌, arith, List, length, ltb, ltb→lt, Bool, true, false, refl, if◌then◌else◌,
}
use copper.Errors.{GoError, eof}
use copper.Stream.Output.{Output}
use copper.StreamLaws.Events.{released}
use copper.Frame.{has}
use copper.Frame.Flag
use copper.Stream.{
  Stream, receive_ack, receive_data, receive_eof, accept_data, process_data, reset_write_side,
  process_reset, reset_read_error,
}

module _ {ℓ} (P : Stream → Type ℓ) where
  pub choice : (b : Bool) {x y : Stream} → P x → P y → P (if b then x else y)
  choice true p q = p
  choice false p q = q

  pub branch {κ} :
      {E : Type κ} (b : Bool) (x y : E × Stream)
      → (b ≡ true → P x.1)
      → (b ≡ false → P y.1)
      → P (if b then x else y).1
  branch true x y p q = p refl
  branch false x y p q = q refl

  pub only_if : (b : Bool) {x y : Stream} → (b ≡ true → P x) → P y → P (if b then x else y)
  only_if true p q = p refl
  only_if false p q = q

  module _ (eof_keeps : (s : Stream) (e : GoError) → P s → P (receive_eof s e)) where
    module _ (ack_keeps : (s : Stream) → P s → P (receive_ack s))
        (data_keeps : (s : Stream) (bytes : List ℕ)
          → 0 < length bytes
          → length bytes ≤ s.read.left
          → P s
          → P (receive_data s bytes)) where
      accept_data-keeps :
          (s : Stream) (bytes : List ℕ) (flags : ℕ) → P s → P (accept_data s bytes flags).1
      unfolding accept_data
      accept_data-keeps s bytes flags p =
          branch (ltb s.read.left (length bytes)) _ _ (λ e. p)
            (λ room.
              let q =
                only_if (ltb 0 (length bytes))
                  (λ e. data_keeps s bytes (ltb→lt _ _ e) (ground arith) p) p in
              choice (has flags Flag.data_eof) (eof_keeps _ eof q) q)

      pub process_data-keeps :
          (s : Stream) (bytes : List ℕ) (flags : ℕ) → P s → P (process_data s bytes flags).1
      unfolding process_data
      process_data-keeps s bytes flags p =
          branch s.flags.seen_eof _ _ (λ e. p)
            (λ e.
              accept_data-keeps _ bytes flags (choice (has flags Flag.data_ack) (ack_keeps s p) p))

    pub process_reset-keeps :
        ((s : Stream) (e : GoError) → P s → P (reset_write_side s e))
        → (s : Stream) (flags : ℕ) (e : GoError) → P s
        → P (process_reset s flags e)
    unfolding process_reset
    process_reset-keeps write_keeps s flags e p =
        let q = choice (has flags Flag.reset_read) (write_keeps s e p) p in
        choice (has flags Flag.reset_write) (eof_keeps _ (reset_read_error e) q) q

  -- The rounds of the writer.
  pub released-branch :
      (b : Bool) (x y : Output)
      → (b ≡ true → P (released x))
      → (b ≡ false → P (released y))
      → P (released (if b then x else y))
  released-branch true x y p q = p refl
  released-branch false x y p q = q refl
