-- ===== src/SdrTcp/Lifecycle/Lost.antt =====
-- A stop of rtlsdr/src/main/cpp/src/sdrtcp.c that comes between an access of the opening thread and the next.
use rtl_tcp_andro.Base.{
  ℕ, suc, ◌≡◌, refl, ◌≢◌, true, false, none, some, [], ◌∷◌, ◌++◌, ap, arith, ◌∙◌, not, ◌&&◌, List,
  if-true, if◌then◌else◌,
}
use rtl_tcp_andro.WorkPool.{pool_free}
use rtl_tcp_andro.SdrTcp.{
  uninitialized, initialized, socket_open, is_stage, Socket, is_open, Effect, close_socket,
}
use rtl_tcp_andro.SdrTcp.Lifecycle.{
  idle, making, marking, binding, returning, World, Answer, closed_by, free_and_close,
  forget_sockets, opener_step, opener_goes, cleans, forgets, Reach, here, next,
}

-- The system gives a descriptor, and the address is free.
abbrev pub granted : ℕ → Answer
granted fd = record { fresh = 0; info = []; socket = some fd; bound = true; listening = true }

-- The clean-up of a server that is not in stage UNINITIALIZED.
abbrev pub cleaned : World → World
cleaned w = record w {
  obj = record w.obj { state = uninitialized; workpool = pool_free w.obj.workpool };
  locked = true;
  closed = w.closed ++ closed_by (close_socket w.obj.listen_socket);
}

closing :
    (s : Socket) (after : List Effect → World)
    → after (if not (is_stage uninitialized initialized) && is_open s then close_socket s else [])
      ≡ after (close_socket s)
closing none after = refl
closing (some fd) after = refl

free_and_close_lem : (w : World) → w.obj.state ≢ uninitialized → free_and_close w ≡ cleaned w
unfolding free_and_close
free_and_close_lem w n =
    let on : is_stage w.obj.state uninitialized ≡ false = ground arith in
    if-true (not (is_stage w.obj.state uninitialized)) _ _ (rw on refl)
    ∙ closing w.obj.listen_socket
        (λ closed. record (cleaned w) { closed = w.closed ++ closed_by closed })

pool_free-valid : (w : World) → (cleaned w).obj.workpool.valid ≡ false
unfolding pool_free
pool_free-valid w = refl

-- A stop that comes while `sdrtcp_open_socket` is in its call of `socket` is lost: it cleans up, and the
-- opening goes on and succeeds, in stage SOCKET_OPEN with a pool that was freed.
pub stop_in_socket :
    (junk : ℕ → ℕ) (w : World) (n fd : ℕ)
    → w.opener ≡ making
    → w.to_clean ≡ suc n
    → w.locked ≡ false
    → w.obj.state ≢ uninitialized
    → (u : World) × Reach junk w u
      × (u.opener ≡ idle)
      × (u.to_clean ≡ n)
      × (u.obj.state ≡ socket_open)
      × (u.obj.listen_socket ≡ some fd)
      × (u.obj.workpool.valid ≡ false)
unfolding forget_sockets opener_step
stop_in_socket junk w n fd at stopping free alive =
    let left : World = record w { to_clean = n } in
    let w0 = free_and_close left in
    let freed = free_and_close_lem left alive in
    let w1 = forget_sockets w0 in
    let made : World = record w1 {
      obj = record w1.obj { listen_socket = some fd };
      opened = w1.opened ++ fd ∷ [];
      opener = marking;
    } in
    let marked : World = record made {
      obj = record made.obj { state = socket_open };
      opener = binding;
    } in
    let a = granted fd in
    let done : World = record marked { opener = idle } in
    let at' : w1.opener ≡ making = ap (λ (v : World). v.opener) freed ∙ at in
    (
      done,
      next
          (next
            (next
              (next
                (next (next here (cleans n stopping free))
                  (forgets (ap (λ (v : World). v.locked) freed)))
                (opener_goes a made (rw at' refl) (ap (λ o. opener_step junk a o w1) at')))
              (opener_goes a marked refl refl))
            (opener_goes a (record marked { opener = returning true }) refl refl))
          (opener_goes a done refl refl),
      refl,
      ap (λ (v : World). v.to_clean) freed,
      refl,
      refl,
      ap (λ (v : World). v.obj.workpool.valid) freed ∙ pool_free-valid left,
    )
