-- ===== src/SdrTcp/Server/Ends.antt =====
-- That the thread of the server of rtlsdr/src/main/cpp/src/sdrtcp.c, tcp_server, comes to its end without
-- a fault, as long as the other threads keep the pool in order.
use rtl_tcp_andro.Base.{not, ltb, List, if-both}
use rtl_tcp_andro.SdrTcp.{
  uninitialized, client_open_started_async, is_stage, SdrTcp, Effect, stage_code, sdrtcp_cleanup,
  sdrtcp_stop_serving_client,
}
use rtl_tcp_andro.SdrTcp.Server.SafePool.{IsSafePool-freed}
use rtl_tcp_andro.SdrTcp.Server.Serving.{IsSafe, Keeps}

-- A stop from another thread is such an interference.
pub sdrtcp_stop_serving_client-Keeps : Keeps (λ obj. (sdrtcp_stop_serving_client obj).0)
unfolding sdrtcp_stop_serving_client sdrtcp_cleanup
sdrtcp_stop_serving_client-Keeps obj h =
    let SafeEnd : SdrTcp × List Effect → Type 0 = λ r. IsSafe r.0 in
    let cleaned : SafeEnd (sdrtcp_cleanup obj) =
      if-both SafeEnd (not (is_stage obj.state uninitialized)) (IsSafePool-freed obj.workpool) h in
    if-both SafeEnd (is_stage obj.state uninitialized) h (
      if-both SafeEnd (ltb (stage_code obj.state) (stage_code client_open_started_async)) cleaned h)
