-- ===== src/Sfgo.antt =====
-- The objects of package sfgo of sf-apis, with the fields that the code reads. A nullable union is
-- an option: `none` is a nil union, or one that holds null.
use sf_processor.Prelude.{ap, and_iff, ◌≡◌, ◌↔◌, Bool, true, ◌&&◌, Option, Eq, ◌==◌, List}
use mathlib.Core.Path.{ap₂}
use sf_processor.Prelude.Int.{ℤ, int_eq, int_beq_iff}
use sf_processor.Prelude.Text.{Str}

pub record Oid : Type 0 where
  pub create_ts : ℤ
  pub hpid : ℤ

abbrev pub oid_beq : Oid → Oid → Bool
oid_beq a b = a.create_ts == b.create_ts && a.hpid == b.hpid

pub oid_beq_iff : (a b : Oid) → (oid_beq a b ≡ true) ↔ (a ≡ b)
oid_beq_iff a b = (
  λ h.
      let (c, p) = (and_iff (a.create_ts == b.create_ts) (a.hpid == b.hpid)).0 h in
      ap₂ (λ c p. record { create_ts = c; hpid = p }) ((int_beq_iff a.create_ts b.create_ts).0 c)
        ((int_beq_iff a.hpid b.hpid).0 p),
  λ e. (and_iff (a.create_ts == b.create_ts) (a.hpid == b.hpid)).1 (
    (int_beq_iff a.create_ts b.create_ts).1 (ap (λ o. Oid.create_ts o) e),
    (int_beq_iff a.hpid b.hpid).1 (ap (λ o. Oid.hpid o) e),
  ),
)

instance abbrev pub oid_eq : Eq Oid
oid_eq = record { beq = oid_beq; beq_iff = oid_beq_iff }

-- SFObjectState, in the order of the enumeration
pub data SfObjectState : Type 0 where
  created_state modified_state reup_state : SfObjectState

pub record Process : Type 0 where
  pub state : SfObjectState
  pub oid : Oid
  pub poid : Option Oid
  pub exe : Str
  pub exe_args : Str
  pub uid : ℤ
  pub user_name : Str
  pub gid : ℤ
  pub group_name : Str
  pub tty : Bool
  pub entry : Bool
  pub ts : ℤ
  pub container_id : Option Str

pub record Container : Type 0 where
  pub id : Str
  pub name : Str
  pub image : Str
  pub imageid : Str
  pub cont_type : ℤ
  pub privileged : Bool
  pub pod_id : Option Str

-- A file, with the bytes of its FOID.
pub record File : Type 0 where
  pub state : SfObjectState
  pub oid : Str
  pub ts : ℤ
  pub restype : ℤ
  pub path : Str
  pub container_id : Option Str

pub record Port : Type 0 where
  pub port : ℤ
  pub target_port : ℤ
  pub node_port : ℤ
  pub proto : Str

pub record Service : Type 0 where
  pub id : Str
  pub name : Str
  pub namespace : Str
  pub cluster_ip : List ℤ
  pub port_list : List Port

pub record Pod : Type 0 where
  pub ts : ℤ
  pub id : Str
  pub name : Str
  pub node_name : Str
  pub namespace : Str
  pub restart_count : ℤ
  pub host_ip : List ℤ
  pub internal_ip : List ℤ
  pub services : List Service

pub record SfHeader : Type 0 where
  pub version : ℤ
  pub exporter : Str
  pub ip : Str
  pub filename : Str

pub record ProcessEvent : Type 0 where
  pub ts : ℤ
  pub tid : ℤ
  pub op_flags : ℤ
  pub ret : ℤ

pub record FileEvent : Type 0 where
  pub ts : ℤ
  pub tid : ℤ
  pub op_flags : ℤ
  pub ret : ℤ

pub record FileFlow : Type 0 where
  pub ts : ℤ
  pub tid : ℤ
  pub op_flags : ℤ
  pub open_flags : ℤ
  pub end_ts : ℤ
  pub fd : ℤ
  pub num_r_recv_ops : ℤ
  pub num_w_send_ops : ℤ
  pub num_r_recv_bytes : ℤ
  pub num_w_send_bytes : ℤ

pub record NetworkFlow : Type 0 where
  pub ts : ℤ
  pub tid : ℤ
  pub op_flags : ℤ
  pub end_ts : ℤ
  pub sip : ℤ
  pub sport : ℤ
  pub dip : ℤ
  pub dport : ℤ
  pub proto : ℤ
  pub fd : ℤ
  pub num_r_recv_ops : ℤ
  pub num_w_send_ops : ℤ
  pub num_r_recv_bytes : ℤ
  pub num_w_send_bytes : ℤ

pub record K8sEvent : Type 0 where
  pub ts : ℤ
  pub message : Str
  pub kind : ℤ
  pub action : ℤ
