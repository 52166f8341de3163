-- ===== src/Osada/Server/Stream.antt =====
-- The request loop and the bytes on the stream.
use so_unoficial.Prelude.{
  value32, ℕ, zero, suc, ◌≤◌, ◌<◌, ◌≡◌, refl, List, [], ◌∷◌, ◌++◌, length, Option, none, some,
  arith, length-drop,
}
use so_unoficial.Osada.State.{BitArray, Volume, Env}
use so_unoficial.Osada.Reply.{Outcome, reply, silent, undefined, endless}
use so_unoficial.Osada.Directory.{osada_mkdir, osada_readdir, osada_rmdir}
use so_unoficial.Osada.Node.{osada_getattr, osada_mknod, osada_rename}
use so_unoficial.Osada.File.Size.{osada_truncate, osada_unlink}
use so_unoficial.Osada.File.Data.{osada_read, osada_write}
use so_unoficial.Osada.Server.{Recv, ◌>>=◌, pure, recv, recv32, recv_sized, handle, resume, process}

-- A read leaves no more than there was.
abbrev Shrinks : {A : Type 0} → Recv A → Type 0
Shrinks m = (stream : List ℕ) → length (m stream).1 ≤ length stream

Shrinks-pure : {A : Type 0} (a : A) → Shrinks (pure a)
Shrinks-pure a stream = omega arith

bind_rest :
    {A B : Type 0} (f : A → Recv B) (r : Option A × List ℕ) (limit : ℕ)
    → length r.1 ≤ limit
    → ((a : A) → Shrinks (f a))
    → let out : Option B × List ℕ = elim r.0 [ none ↦ (none, r.1) | some x ↦ f x r.1 ] in
      length out.1 ≤ limit
bind_rest f (none, rest) limit l k = l
bind_rest f (some a, rest) limit l k = omega (arith, l, k a rest)

Shrinks-bind :
    {A B : Type 0} (m : Recv A) (f : A → Recv B)
    → Shrinks m
    → ((a : A) → Shrinks (f a))
    → Shrinks (m >>= f)
Shrinks-bind m f h k stream = bind_rest f (m stream) (length stream) (h stream) k

Shrinks-recv : (n : ℕ) → Shrinks (recv n)
unfolding recv
Shrinks-recv n stream = ground (arith, length-drop n stream)

Shrinks-recv32 : Shrinks recv32
unfolding recv32
Shrinks-recv32 =
    Shrinks-bind (recv 4) (λ bytes. pure (value32 bytes)) (Shrinks-recv 4)
      (λ bytes. Shrinks-pure (value32 bytes))

Shrinks-recv_sized : Shrinks recv_sized
unfolding recv_sized
Shrinks-recv_sized = Shrinks-bind recv32 recv Shrinks-recv32 Shrinks-recv

-- A path, or a number, with more to read behind it.
Shrinks-path :
    {A : Type 0} (f : List ℕ → Recv A)
    → ((path : List ℕ) → Shrinks (f path))
    → Shrinks (recv_sized >>= f)
Shrinks-path f h = Shrinks-bind recv_sized f Shrinks-recv_sized h

Shrinks-number : {A : Type 0} (f : ℕ → Recv A) → ((n : ℕ) → Shrinks (f n)) → Shrinks (recv32 >>= f)
Shrinks-number f h = Shrinks-bind recv32 f Shrinks-recv32 h

module _ {Bits : Type 0} ⦃ops : BitArray Bits⦄ where
  -- The requests that read one path.
  Shrinks-one : (f : List ℕ → Outcome Bits) → Shrinks (recv_sized >>= (λ path. pure (f path)))
  Shrinks-one f = Shrinks-path (λ path. pure (f path)) (λ path. Shrinks-pure (f path))

  Shrinks-write :
      (f : List ℕ → ℕ → List ℕ → Outcome Bits)
      → Shrinks (
          recv_sized >>= (λ path. recv32 >>= (λ size.
            recv32 >>= (λ offset. recv size >>= (λ buffer. pure (f path offset buffer))))))
  Shrinks-write f =
      Shrinks-path
        (λ path. recv32 >>= (λ size.
          recv32 >>= (λ offset. recv size >>= (λ buffer. pure (f path offset buffer)))))
        (λ path.
          Shrinks-number
            (λ size. recv32 >>= (λ offset. recv size >>= (λ buffer. pure (f path offset buffer))))
            (λ size.
              Shrinks-number (λ offset. recv size >>= (λ buffer. pure (f path offset buffer)))
                (λ offset.
                  Shrinks-bind (recv size) (λ buffer. pure (f path offset buffer))
                    (Shrinks-recv size) (λ buffer. Shrinks-pure (f path offset buffer)))))

  Shrinks-read :
      (f : List ℕ → ℕ → ℕ → Outcome Bits)
      → Shrinks (
          recv_sized
          >>= (λ path. recv32 >>= (λ size. recv32 >>= (λ offset. pure (f path size offset)))))
  Shrinks-read f =
      Shrinks-path (λ path. recv32 >>= (λ size. recv32 >>= (λ offset. pure (f path size offset))))
        (λ path.
          Shrinks-number (λ size. recv32 >>= (λ offset. pure (f path size offset)))
            (λ size.
              Shrinks-number (λ offset. pure (f path size offset))
                (λ offset. Shrinks-pure (f path size offset))))

  Shrinks-truncate :
      (f : List ℕ → ℕ → Outcome Bits)
      → Shrinks (recv_sized >>= (λ path. recv32 >>= (λ size. pure (f path size))))
  Shrinks-truncate f =
      Shrinks-path (λ path. recv32 >>= (λ size. pure (f path size)))
        (λ path. Shrinks-number (λ size. pure (f path size)) (λ size. Shrinks-pure (f path size)))

  Shrinks-rename :
      (f : List ℕ → List ℕ → Outcome Bits)
      → Shrinks (recv_sized >>= (λ from. recv_sized >>= (λ to. pure (f from to))))
  Shrinks-rename f =
      Shrinks-path (λ from. recv_sized >>= (λ to. pure (f from to))) (λ from. Shrinks-one (f from))

  -- A handler leaves no more of the stream than there was.
  Shrinks-handle : (env : Env) (op_code : ℕ) (v : Volume Bits) → Shrinks (handle env op_code v)
  unfolding handle
  Shrinks-handle env op_code v stream = ground (
    arith,
    Shrinks-one (λ path. osada_mkdir env path v) stream,
    Shrinks-one (λ path. osada_readdir path v) stream,
    Shrinks-one (λ path. osada_getattr path v) stream,
    Shrinks-one (λ path. osada_mknod env path v) stream,
    Shrinks-write (λ path offset buffer. osada_write env path offset buffer v) stream,
    Shrinks-read (λ path size offset. osada_read env path size offset v) stream,
    Shrinks-truncate (λ path size. osada_truncate path size v) stream,
    Shrinks-one (λ path. osada_unlink path v) stream,
    Shrinks-one (λ path. osada_rmdir path v) stream,
    Shrinks-rename (λ from to. osada_rename env from to v) stream,
  )

  resume_same :
      (next next' : List ℕ → List ℕ → Volume Bits → Outcome Bits) (sent : List ℕ) (v : Volume Bits)
      (r : Option (Outcome Bits) × List ℕ) (limit : ℕ)
      → length r.1 ≤ limit
      → ((left sent' : List ℕ) (w : Volume Bits)
          → length left ≤ limit
          → next left sent' w ≡ next' left sent' w)
      → resume next sent v r ≡ resume next' sent v r
  unfolding resume
  resume_same next next' sent v (none, left) limit l h = h left sent v l
  resume_same next next' sent v (some (reply bytes w), left) limit l h = h left (sent ++ bytes) w l
  resume_same next next' sent v (some (silent w), left) limit l h = h left sent w l
  resume_same next next' sent v (some undefined, left) limit l h = refl
  resume_same next next' sent v (some endless, left) limit l h = refl

  -- The fuel of the loop of process_request is no part of what it comes to: any two amounts larger than
  -- the number of bytes on the stream give the same outcome.
  process-fuel :
      (fuel fuel' : ℕ) (env : ℕ → Env) (n : ℕ) (stream sent : List ℕ) (v : Volume Bits)
      → length stream < fuel
      → length stream < fuel'
      → process fuel env n stream sent v ≡ process fuel' env n stream sent v
  unfolding process
  process-fuel zero fuel' env n stream sent v f f' = absurd (omega arith)
  process-fuel (suc fuel) zero env n stream sent v f f' = absurd (omega arith)
  process-fuel (suc fuel) (suc fuel') env n [] sent v f f' = refl
  process-fuel (suc fuel) (suc fuel') env n (op_code ∷ rest) sent v f f' =
      resume_same (process fuel env (suc n)) (process fuel' env (suc n)) sent v
        (handle (env n) op_code v rest) (length rest) (Shrinks-handle (env n) op_code v rest)
        (λ left sent' w l.
          process-fuel fuel fuel' env (suc n) left sent' w (omega arith) (omega arith))
