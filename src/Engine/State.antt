-- ===== src/Engine/State.antt =====
-- The state of `br_ssl_engine_context` that the record management reads and writes, and the
-- record protection (`br_sslrec_in_class`, `br_sslrec_out_class`) that it calls.
use bearssl.Common.{ℕ, ◌+◌, ◌-◌, ◌%◌, ◌^◌, Bool, Option}

-- `rc->iomode`: BR_IO_FAILED, BR_IO_IN, BR_IO_OUT and BR_IO_INOUT.
pub data IoMode : Type 0 where
  failed io_in io_out inout : IoMode

-- `size_t` arithmetic
abbrev pub size_add : ℕ → ℕ → ℕ
size_add a b = (a + b) % 2 ^ 64

abbrev pub size_sub : ℕ → ℕ → ℕ
size_sub a b = (a + 2 ^ 64 - b) % 2 ^ 64

-- One address space: a pointer is an address and NULL is 0, so that buffers may be one, or overlap.
abbrev pub Memory : Type 0
Memory = ℕ → ℕ

abbrev pub null : ℕ
null = 0

-- What the vtables of the record protection offer, and the state of the handshake processor
-- (`Cpu`). A context comes back changed, as does memory;
-- a buffer is an address and a length.
pub record RecordLayer : Type 1 where
  pub In : Type 0
  pub Out : Type 0
  pub Cpu : Type 0
  pub check_length : In → ℕ → Bool
  pub decrypt : In → ℕ → ℕ → ℕ → ℕ → Memory → Option (ℕ × ℕ) × In × Memory
  pub max_plaintext : Out → ℕ → ℕ → ℕ × ℕ
  pub encrypt : Out → ℕ → ℕ → ℕ → ℕ → Memory → ℕ × ℕ × Out × Memory

-- `rc->out.vtable`: no encryption (`br_sslrec_out_clear_vtable`), or a protected mode.
pub data OutMode (Out : Type 0) : Type 0 where
  clear : OutMode Out
  protected : Out → OutMode Out

pub record EngineState (In Out Cpu : Type 0) : Type 0 where
  pub iomode : IoMode
  pub err : ℕ
  pub mem : Memory
  pub ibuf : ℕ
  pub ibuf_len : ℕ
  pub obuf : ℕ
  pub obuf_len : ℕ
  pub max_frag_len : ℕ
  pub log_max_frag_len : ℕ
  pub peer_log_max_frag_len : ℕ
  pub ixa : ℕ
  pub ixb : ℕ
  pub ixc : ℕ
  pub oxa : ℕ
  pub oxb : ℕ
  pub oxc : ℕ
  pub incrypt : Bool
  pub record_in : In
  pub record_out : OutMode Out
  pub record_type_in : ℕ
  pub record_type_out : ℕ
  pub version_in : ℕ
  pub version_out : ℕ
  pub shutdown_recv : Bool
  pub application_data : Bool
  pub reneg : ℕ
  pub no_renegotiation : Bool
  pub hbuf_in : ℕ
  pub hlen_in : ℕ
  pub hbuf_out : ℕ
  pub saved_hbuf_out : ℕ
  pub hlen_out : ℕ
  pub action : ℕ
  pub cpu : Cpu

abbrev pub Engine : RecordLayer → Type 0
Engine R = EngineState R.In R.Out R.Cpu
