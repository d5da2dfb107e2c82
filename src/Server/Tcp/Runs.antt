-- ===== src/Server/Tcp/Runs.antt =====
-- Runs of the handlers of datagrams and connections and of the monitor's rounds, and the theorems at
-- them.
use dnss_cpp.Common.{ℕ, ◌≤◌, ◌≡◌, false, true, List, ◌++◌, arith, length}
use dnss_cpp.Common.{◌≢◌}
use dnss_cpp.Protocol.Message.{DnsMessage}
use dnss_cpp.Protocol.Parse.{parse}
use dnss_cpp.Cache.Peek.{peek_cache_raw}
use dnss_cpp.Cache.Runs.{settings, upstream}
use dnss_cpp.Tuner.Cycle.{tune_all}
use dnss_cpp.Tuner.Runs.{fresh, fresh-IsTuned, two_cycles}
use dnss_cpp.Server.HandleQuery.Answers.{Settles}
use dnss_cpp.Server.ThreadPool.{Pool, create}
use dnss_cpp.Server.ThreadPool.Bounds.{IsBounded}
use dnss_cpp.Server.Worker.{count_query, resolver}
use dnss_cpp.Server.Receive.{on_udp_receive}
use dnss_cpp.Server.Receive.Escapes.{Receives, on_udp_receive-Receives}
use dnss_cpp.Server.Resize.{perf_monitor_round, perf_monitor_round-follows}
use dnss_cpp.Server.Tcp.{accepted, read_request, frame, run_job}
use dnss_cpp.Server.Tcp.Frames.{read_request-frame}
use dnss_cpp.Server.Tcp.Replies.{Serves, run_job-Serves}
use dnss_cpp.Server.Runs.{ip, cut, saturated, saturated-Holds, local_request, local_message}

-- The same datagram ends a worker, and does not leave this handler.
on_udp_receive-Receives_example :
    Receives
      (peek_cache_raw 1 settings cut (count_query saturated).cache)
      (on_udp_receive upstream true settings 1 2 false ip cut saturated)
on_udp_receive-Receives_example =
    on_udp_receive-Receives upstream true settings 1 2 false ip cut saturated saturated-Holds

read_request-frame_example :
    read_request (frame local_request ++ cut) ≡ accepted local_request (parse local_request)
read_request-frame_example = read_request-frame local_request cut (omega arith) (omega arith)

run_job-Serves_example :
    Settles
      (Serves
        (resolver upstream true true settings 1 2)
        (peek_cache_raw 1 settings local_request saturated.cache)
        local_message)
      (run_job
        (resolver upstream true true settings 1 2)
        1
        settings
        (local_request, local_message)
        saturated.cache)
run_job-Serves_example =
    run_job-Serves upstream true settings 1 2 local_request local_message saturated.cache
      saturated-Holds.0

abbrev pool : Pool (List ℕ × DnsMessage)
pool = create 24 512

has_room : length pool.tasks ≤ pool.backpressure_limit
unfolding create
has_room = omega arith

abbrev workers : Pool (List ℕ)
workers = create 24 300

workers-IsBounded : IsBounded workers
unfolding create
workers-IsBounded =
    (omega arith, omega arith, omega arith, omega arith, omega arith, (λ s. omega arith))

perf_monitor_round-follows_example :
    let rec = (tune_all two_cycles fresh).thread_count in
    let q = perf_monitor_round rec workers in
    IsBounded q × (rec ≤ q.live_count) × (rec ≢ workers.live_count → q.target ≡ rec)
perf_monitor_round-follows_example =
    perf_monitor_round-follows two_cycles fresh workers fresh-IsTuned workers-IsBounded
