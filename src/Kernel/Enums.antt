-- ===== src/Kernel/Enums.antt =====
-- The enumerations of bpf/include/vmlinux.h whose constants bpf/*.c uses.
use jidick.Base.{ℕ}

-- `IPPROTO_…`
pub data IpProto : Type 0 where
  ip : IpProto
  icmp : IpProto
  igmp : IpProto
  ipip : IpProto
  tcp : IpProto
  egp : IpProto
  pup : IpProto
  udp : IpProto
  idp : IpProto
  tp : IpProto
  dccp : IpProto
  ipv6 : IpProto
  rsvp : IpProto
  gre : IpProto
  esp : IpProto
  ah : IpProto
  mtp : IpProto
  beetph : IpProto
  encap : IpProto
  pim : IpProto
  comp : IpProto
  sctp : IpProto
  udplite : IpProto
  mpls : IpProto
  raw : IpProto
  max : IpProto

abbrev pub ip_proto : IpProto → ℕ
ip_proto ip = 0
ip_proto icmp = 1
ip_proto igmp = 2
ip_proto ipip = 4
ip_proto tcp = 6
ip_proto egp = 8
ip_proto pup = 12
ip_proto udp = 17
ip_proto idp = 22
ip_proto tp = 29
ip_proto dccp = 33
ip_proto ipv6 = 41
ip_proto rsvp = 46
ip_proto gre = 47
ip_proto esp = 50
ip_proto ah = 51
ip_proto mtp = 92
ip_proto beetph = 94
ip_proto encap = 98
ip_proto pim = 103
ip_proto comp = 108
ip_proto sctp = 132
ip_proto udplite = 136
ip_proto mpls = 137
ip_proto raw = 255
ip_proto max = 256

-- `SOCK_…` of `enum sock_type`
pub data SockType : Type 0 where
  stream : SockType
  dgram : SockType
  raw : SockType
  rdm : SockType
  seqpacket : SockType
  dccp : SockType
  packet : SockType

abbrev pub sock_type : SockType → ℕ
sock_type stream = 1
sock_type dgram = 2
sock_type raw = 3
sock_type rdm = 4
sock_type seqpacket = 5
sock_type dccp = 6
sock_type packet = 10

-- `TCP_…`
pub data TcpState : Type 0 where
  established : TcpState
  syn_sent : TcpState
  syn_recv : TcpState
  fin_wait1 : TcpState
  fin_wait2 : TcpState
  time_wait : TcpState
  close : TcpState
  close_wait : TcpState
  last_ack : TcpState
  listen : TcpState
  closing : TcpState
  new_syn_recv : TcpState
  max_states : TcpState

abbrev pub tcp_state : TcpState → ℕ
tcp_state established = 1
tcp_state syn_sent = 2
tcp_state syn_recv = 3
tcp_state fin_wait1 = 4
tcp_state fin_wait2 = 5
tcp_state time_wait = 6
tcp_state close = 7
tcp_state close_wait = 8
tcp_state last_ack = 9
tcp_state listen = 10
tcp_state closing = 11
tcp_state new_syn_recv = 12
tcp_state max_states = 13

-- `…_SOFTIRQ` and `NR_SOFTIRQS`
pub data SoftirqVector : Type 0 where
  hi : SoftirqVector
  timer : SoftirqVector
  net_tx : SoftirqVector
  net_rx : SoftirqVector
  block : SoftirqVector
  irq_poll : SoftirqVector
  tasklet : SoftirqVector
  sched : SoftirqVector
  hrtimer : SoftirqVector
  rcu : SoftirqVector
  nr_softirqs : SoftirqVector

abbrev pub softirq_vector : SoftirqVector → ℕ
softirq_vector hi = 0
softirq_vector timer = 1
softirq_vector net_tx = 2
softirq_vector net_rx = 3
softirq_vector block = 4
softirq_vector irq_poll = 5
softirq_vector tasklet = 6
softirq_vector sched = 7
softirq_vector hrtimer = 8
softirq_vector rcu = 9
softirq_vector nr_softirqs = 10

-- `enum cgroup_subsys_id`; the last is the number of the others.
pub data CgroupSubsysId : Type 0 where
  cpuset : CgroupSubsysId
  cpu : CgroupSubsysId
  cpuacct : CgroupSubsysId
  io : CgroupSubsysId
  memory : CgroupSubsysId
  devices : CgroupSubsysId
  freezer : CgroupSubsysId
  net_cls : CgroupSubsysId
  perf_event : CgroupSubsysId
  net_prio : CgroupSubsysId
  hugetlb : CgroupSubsysId
  pids : CgroupSubsysId
  rdma : CgroupSubsysId
  cgroup_subsys_count : CgroupSubsysId

abbrev pub cgroup_subsys_id : CgroupSubsysId → ℕ
cgroup_subsys_id cpuset = 0
cgroup_subsys_id cpu = 1
cgroup_subsys_id cpuacct = 2
cgroup_subsys_id io = 3
cgroup_subsys_id memory = 4
cgroup_subsys_id devices = 5
cgroup_subsys_id freezer = 6
cgroup_subsys_id net_cls = 7
cgroup_subsys_id perf_event = 8
cgroup_subsys_id net_prio = 9
cgroup_subsys_id hugetlb = 10
cgroup_subsys_id pids = 11
cgroup_subsys_id rdma = 12
cgroup_subsys_id cgroup_subsys_count = 13
