-- ===== src/Osada/Server.antt =====
-- process_request: the requests as they stand on the socket.
pub mod Stream
use so_unoficial.Prelude.{
  value32, ℕ, zero, suc, List, [], ◌∷◌, ◌++◌, ◌==◌, if◌then◌else◌, ◌+◌, ◌*◌, ltb, length, take,
  drop, Option, none, some,
}
use so_unoficial.Osada.State.{BitArray, Volume, Env}
use so_unoficial.Osada.Reply.{Outcome, reply, silent, undefined, endless}
use so_unoficial.Osada.Directory.{osada_mkdir, osada_readdir, osada_rmdir}
use so_unoficial.Osada.Node.{osada_getattr, osada_mknod, osada_rename}
use so_unoficial.Osada.File.Size.{osada_truncate, osada_unlink}
use so_unoficial.Osada.File.Data.{osada_read, osada_write}

-- A read from the socket, on the bytes that the client has sent before it closed the connection: what is read, or
-- `none` where `received_bytes <= 0`, and the bytes that are left.
abbrev pub Recv : Type 0 → Type 0
Recv A = List ℕ → Option A × List ℕ

infixl 5 ◌>>=◌
abbrev pub ◌>>=◌ : {A B : Type 0} → Recv A → (A → Recv B) → Recv B
◌>>=◌ m f stream = let (a, rest) = m stream in elim a [ none ↦ (none, rest) | some x ↦ f x rest ]

abbrev pub pure : {A : Type 0} → A → Recv A
pure a stream = (some a, stream)

-- `recv(socket, buffer, n, MSG_WAITALL)`. It returns 0 at the end of the stream, and also for `n = 0`. A
-- stream that ends within the field counts as ended.
pub recv : ℕ → Recv (List ℕ)
recv n stream =
    if n == 0
    then (none, stream)
    else if ltb (length stream) n
    then (none, [])
    else (some (take n stream), drop n stream)

pub recv32 : Recv ℕ
recv32 = recv 4 >>= λ bytes. pure (value32 bytes)

-- A size, and as many bytes.
pub recv_sized : Recv (List ℕ)
recv_sized = recv32 >>= recv

module _ {Bits : Type 0} ⦃ops : BitArray Bits⦄ where
  -- What the handler of each operation code reads behind the code, and then does.
  pub handle : Env → ℕ → Volume Bits → Recv (Outcome Bits)
  handle env op_code v =
      if op_code == 1
      then recv_sized >>= (λ path. pure (osada_mkdir env path v))
      else if op_code == 2
      then recv_sized >>= (λ path. pure (osada_readdir path v))
      else if op_code == 3
      then recv_sized >>= (λ path. pure (osada_getattr path v))
      else if op_code == 4
      then recv_sized >>= (λ path. pure (osada_mknod env path v))
      else if op_code == 5
      then recv_sized >>= (λ path. recv32 >>= (λ size.
        recv32
        >>= (λ offset. recv size >>= (λ buffer. pure (osada_write env path offset buffer v)))))
      else if op_code == 6
      then recv_sized >>= (λ path.
        recv32 >>= (λ size. recv32 >>= (λ offset. pure (osada_read env path size offset v))))
      else if op_code == 7
      then recv_sized >>= (λ path. recv32 >>= (λ size. pure (osada_truncate path size v)))
      else if op_code == 8
      then recv_sized >>= (λ path. pure (osada_unlink path v))
      else if op_code == 9
      then recv_sized >>= (λ path. pure (osada_rmdir path v))
      else if op_code == 10
      then recv_sized >>= (λ from. recv_sized >>= (λ to. pure (osada_rename env from to v)))
      else pure (silent v)

  -- Where the loop of process_request goes on after a handler, by what the handler came to and the bytes that are left.
  pub resume :
      (List ℕ → List ℕ → Volume Bits → Outcome Bits)
      → List ℕ
      → Volume Bits
      → Option (Outcome Bits) × List ℕ
      → Outcome Bits
  resume next sent v (none, left) = next left sent v
  resume next sent v (some (reply bytes w), left) = next left (sent ++ bytes) w
  resume next sent v (some (silent w), left) = next left sent w
  resume next sent v (some undefined, left) = undefined
  resume next sent v (some endless, left) = endless

  -- void process_request(int * client_socket): the requests one after another until the connection ends. `env n` is what
  -- the n-th request finds. `reply` holds all the bytes that were sent.
  pub process : ℕ → (ℕ → Env) → ℕ → List ℕ → List ℕ → Volume Bits → Outcome Bits
  process zero env n stream sent v = endless
  process (suc fuel) env n [] sent v = reply sent v
  process (suc fuel) env n (op_code ∷ rest) sent v =
      resume (process fuel env (suc n)) sent v (handle (env n) op_code v rest)

  -- Each request takes at least the byte of its code from the stream.
  pub process_request : (ℕ → Env) → List ℕ → Volume Bits → Outcome Bits
  unfolding process
  process_request env stream v = process (suc (length stream)) env 0 stream [] v
