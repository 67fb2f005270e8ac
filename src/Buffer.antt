-- ===== src/Buffer.antt =====
-- connection.py: `ReceiveBuffer`, which reads from its socket when it runs out, and aio.py:
-- `AioReceiveBuffer`, which raises when it runs out and is filled by its connection.
pub mod Refines
use pylyskom.Base.{
  ℕ, zero, suc, ◌+◌, ◌-◌, ◌≤◌, ◌<◌, ◌≡◌, max, Bytes, [], ◌∷◌, ◌++◌, length, take, drop, ltb, true,
  false, ◌==◌, if◌then◌else◌,
}
use pylyskom.Result.{Result, ok, raise, not_enough_data, receive_error, unspecified}

-- The fields that both classes have: `_rb`, `_rb_len`, `_rb_pos`.
pub record ReceiveBuffer : Type 0 where
  pub rb : Bytes
  pub rb_len : ℕ
  pub rb_pos : ℕ

abbrev pub new_buffer : ReceiveBuffer
new_buffer = record { rb = []; rb_len = 0; rb_pos = 0 }

-- The bytes that were not handed out yet.
unfoldable pub current : ReceiveBuffer → Bytes
current b = drop b.rb_pos b.rb

pub record IsValid (b : ReceiveBuffer) : Type 0 where
  pub counted : b.rb_len ≡ length b.rb
  pub within : b.rb_pos ≤ b.rb_len

-- AioReceiveBuffer.append
unfoldable pub append : ReceiveBuffer → Bytes → ReceiveBuffer
append b received =
    let rb = drop b.rb_pos b.rb ++ received in record { rb = rb; rb_len = length rb; rb_pos = 0 }

-- AioReceiveBuffer.receive_string
unfoldable pub aio_receive_string : ℕ → ReceiveBuffer → Result Bytes × ReceiveBuffer
aio_receive_string n b =
    if ltb (b.rb_len - b.rb_pos) n
    then (raise not_enough_data, b)
    else (ok (take n (drop b.rb_pos b.rb)), record b { rb_pos = b.rb_pos + n })

-- What the code asks of a socket: `recv(n)` hands out the next bytes of the stream, at most `n` of
-- them, and at least one until the stream ends.
pub record Socket : Type 1 where
  pub State : Type 0
  pub recv : ℕ → State → Bytes × State
  -- What the peer will still have sent when the stream ends.
  pub pending : State → Bytes
  pub recv_next : (n : ℕ) (s : State) → pending s ≡ (recv n s).0 ++ pending (recv n s).1
  pub recv_end : (n : ℕ) (s : State) → 0 < n → (recv n s).0 ≡ [] → pending s ≡ []

module _ (S : Socket) where
  open S use {State, recv}

  -- The `while` of `_ensure_receive_buffer_size`. Each round adds a byte at least, so as many rounds
  -- as bytes are needed; `unspecified` would mean that they were not enough.
  unfoldable pub ensure_receive_buffer_size :
      ℕ → ℕ → ReceiveBuffer → State → Result (Unit {0}) × ReceiveBuffer × State
  ensure_receive_buffer_size zero size b s =
      if ltb (b.rb_len - b.rb_pos) size then (raise unspecified, b, s) else (ok tt, b, s)
  ensure_receive_buffer_size (suc fuel) size b s =
      let (received, s') = recv (max (size - (b.rb_len - b.rb_pos)) 128) s in
      elim (ltb (b.rb_len - b.rb_pos) size) [
        | false ↦ (ok tt, b, s)
        | true ↦ elim (length received == 0) [
          | true ↦ (raise receive_error, b, s')
          | false ↦ ensure_receive_buffer_size fuel size (append b received) s'
        ]
      ]

  -- The lines of `receive_string` behind the call that fills the buffer.
  unfoldable pub hand_out :
      ℕ → Result (Unit {0}) × ReceiveBuffer × State → Result Bytes × ReceiveBuffer × State
  hand_out n (ok _, b, s) =
      (ok (take n (drop b.rb_pos b.rb)), record b { rb_pos = b.rb_pos + n }, s)
  hand_out n (raise e, b, s) = (raise e, b, s)

  -- ReceiveBuffer.receive_string
  unfoldable pub receive_string : ℕ → ReceiveBuffer → State → Result Bytes × ReceiveBuffer × State
  unfolding hand_out
  receive_string n b s = hand_out n (ensure_receive_buffer_size n n b s)
