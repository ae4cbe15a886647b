-- ===== src/RtlSdrDevice/Samples.antt =====
-- rtlsdr_callback of rtlsdr/src/main/cpp/src/rtlsdrdevice.c: samples on their way to the client.
use rtl_tcp_andro.Base.{
  ℕ, ◌*◌, ◌^◌, ◌/◌, ◌<◌, ◌≡◌, Option, some, List, [], ◌∷◌, ◌++◌, ◌>>=◌, length, take, set,
  get_elem?, arith, ap, sym, ◌∙◌, zero, suc, true,
}
use rtl_tcp_andro.Base.Words.{IsBytes}
use rtl_tcp_andro.ExtBuffer.{ushort}
use rtl_tcp_andro.ExtBuffer.Invariant.{IsValid}
use rtl_tcp_andro.WorkPool.{BufferPtr, WorkPool, pool_get_wait_lock}
use rtl_tcp_andro.WorkPool.Calls.{IsRunning}
use rtl_tcp_andro.SdrTcp.{client_serving, SdrTcp}
use rtl_tcp_andro.SdrTcp.Memcpy.{bytes_to_send}
use rtl_tcp_andro.SdrTcp.Feed.{sdrtcp_feed}
use rtl_tcp_andro.SdrTcp.Feed.Outcome.{sdrtcp_feed-serving}
use rtl_tcp_andro.RtlSdrDevice.{Dongle, rtlsdr_callback}

double_half : (n half : ℕ) → n ≡ 2 * half → n / 2 ≡ half
double_half n half e = omega arith

take_all {ℓ} : {A : Type ℓ} (xs : List A) (n : ℕ) → n ≡ length xs → take n xs ≡ xs
take_all [] n e = rw e
take_all (x ∷ xs) zero e = absurd (omega arith)
take_all (x ∷ xs) (suc n) e = ap (λ ys. x ∷ ys) (take_all xs n (omega arith))

-- An even number of sample bytes (a uint32_t) from librtlsdr, with a client being served and a buffer given by the
-- pool: all of the bytes, in order, stand in that buffer at the end of the client's queue.
pub rtlsdr_callback-serving :
    (junk : ℕ → ℕ) (fresh : BufferPtr) (others : WorkPool → WorkPool) (obj : SdrTcp) (d : Dongle)
    (p1 : WorkPool) (buff : BufferPtr) (buf : List ℕ) (half : ℕ)
    → obj.state ≡ client_serving
    → pool_get_wait_lock fresh others obj.workpool 0 true ≡ some (some buff, p1)
    → IsRunning p1
    → p1.max_ids ≡ 2
    → IsValid (p1.memory buff)
    → (p1.memory buff).type ≡ ushort
    → length buf ≡ 2 * half
    → IsBytes buf
    → 0 < half
    → length buf < 2 ^ 32
    → (q : List BufferPtr) × (p' : WorkPool) × (get_elem? p1.queues 1 ≡ some q)
      × (rtlsdr_callback junk fresh others
            (λ o. o)
            (record { tcpserv = obj; rtl_dev = some d })
            buf
            (length buf)
          ≡ some (some 1, record obj { workpool = p' }))
      × (p'.queues ≡ set p1.queues 1 (q ++ buff ∷ []))
      × (bytes_to_send (p'.memory buff) ≡ some buf)
unfolding rtlsdr_callback
rtlsdr_callback-serving junk fresh others obj d p1 buff buf half e got r two v t l are positive
      small =
    let all : take (2 * half) buf ≡ buf = take_all buf (2 * half) (sym l) in
    let (q, p', at, fed, queued, sent) =
      sdrtcp_feed-serving junk fresh others obj p1 buff buf half e got r two v t (ap length all ∙ l)
        (rw all are) positive (omega (arith, l, small)) in
    (
      q,
      p',
      at,
      ap
            (λ n. sdrtcp_feed junk fresh others (λ o. o) obj buf n >>= λ (result, served).
              some (some result, served))
            (double_half (length buf) half l)
          ∙ ap (λ (o : Option (ℕ × SdrTcp)). o >>= λ (result, served). some (some result, served))
              fed,
      queued,
      sent ∙ ap some all,
    )
