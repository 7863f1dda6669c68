-- ===== src/Launch/Tests.antt =====
-- A lease at concrete processes.
use agent_message_queue.Base.{
  ℕ, arith, ◌≡◌, refl, none, some, true, false, [], ne_of_test, string_eq,
}
use agent_message_queue.Base.Text.{trim_space}
use agent_message_queue.Launch.Lease.{ProcessInfo, absent, stored, LeaseError, ok, err}
use agent_message_queue.Launch.Lease.Capability.{
  Write, Call, Lease, World, acquire_lease, discard, drop_secret, release,
}
use agent_message_queue.Launch.Lease.Taking.{IsFree, record_of, acquire_lease-IsFree}
use agent_message_queue.Launch.Lease.Exclusion.{
  IsNamed, SeesAlive, acquire_lease-refused, release-acquire_lease,
}

-- Process 7 is running, and so is process 8.
abbrev process : ℕ → ProcessInfo
process n = record {
  pid = n;
  running = true;
  start_token = "t100";
  boot_id = "b1";
  inspect_error = none;
}

abbrev call_of : ℕ → Call
call_of n = record {
  self = process n;
  inspect = process;
  interlock = true;
  generated_nonce = none;
  random = some 42;
  write = Write.written;
  removes = true;
}

abbrev nobody : World
nobody = record { lease_file = absent; secrets = [] }

abbrev taken_lease : Lease
taken_lease = record {
  root = 1;
  nonce = "n1";
  holder = record { pid = 7; process_start = "t100"; boot_id = "b1" };
  secret = 42;
  handle_ids = [];
  released = false;
}

abbrev after_taking : World
after_taking = (acquire_lease (call_of 7) 1 "n1" nobody).0

acquired : acquire_lease (call_of 7) 1 "n1" nobody ≡ (after_taking, ok taken_lease)
unfolding acquire_lease string_eq trim_space
acquired = refl

lease-IsNamed : IsNamed taken_lease
lease-IsNamed =
    (ne_of_test (trim_space "n1") "" (unfold string_eq trim_space in refl), ground arith)

seen_alive : SeesAlive (call_of 8) taken_lease
seen_alive = (refl, refl, refl, ne_of_test "t100" "" (unfold string_eq in refl))

acquire_lease-IsFree_example :
    IsFree process absent × (after_taking.lease_file ≡ stored (record_of taken_lease))
acquire_lease-IsFree_example =
    acquire_lease-IsFree (call_of 7) 1 "n1" nobody after_taking taken_lease acquired

acquire_lease-refused_example :
    (e : LeaseError) × (acquire_lease (call_of 8) 1 "n2" after_taking ≡ (after_taking, err e))
acquire_lease-refused_example =
    acquire_lease-refused (call_of 7) (call_of 8) 1 1 "n1" "n2" nobody after_taking after_taking
      taken_lease acquired refl lease-IsNamed seen_alive

release-acquire_lease_example : release (call_of 8) taken_lease after_taking ≡ (
  record { lease_file = absent; secrets = drop_secret 42 after_taking.secrets },
  (discard taken_lease, ok tt),
)
release-acquire_lease_example =
    release-acquire_lease (call_of 7) (call_of 8) 1 "n1" nobody after_taking after_taking
      taken_lease acquired refl lease-IsNamed seen_alive refl refl refl
