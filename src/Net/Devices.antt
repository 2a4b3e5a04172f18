-- ===== src/Net/Devices.antt =====
-- bpf/netdev_hw.c and bpf/lacp.c: drops counted by a network device, and the notice that a bond
-- port stopped collecting and distributing.
pub mod Metric
use jidick.Base.{ℕ, Option, some, ◌≡◌, ◌≢◌, true}
use jidick.Kernel.BpfMap.{BpfMap, nat_eq, bpf_any}
use jidick.Kernel.Laws.{lookup-update_self, lookup-update_ne}

-- What is read of the `struct net_device` around a `struct device`.
pub record NetDevice : Type 0 where
  pub ifindex : ℕ
  pub rx_dropped : ℕ

-- `rx_sw_dropped_stats` is `map`.
module _ {S : Type 0} (map : BpfMap S ℕ ℕ nat_eq) where
  unfoldable carrier_down_count_show : NetDevice → S → S
  carrier_down_count_show netdev s = map.update s netdev.ifindex netdev.rx_dropped bpf_any

  -- The count of a device replaces the one that was there, if the map takes it, and the counts of
  -- the other devices stay.
  carrier_down_count_show_lem :
      (netdev : NetDevice) (s : S)
      → map.accepts s netdev.ifindex bpf_any ≡ true
      → let s' = carrier_down_count_show netdev s in
        (map.lookup s' netdev.ifindex ≡ some netdev.rx_dropped)
        × ((j : ℕ) → netdev.ifindex ≢ j → map.lookup s' j ≡ map.lookup s j)
  unfolding carrier_down_count_show
  carrier_down_count_show_lem netdev s room = (
    lookup-update_self map s _ _ bpf_any room,
    λ j apart. lookup-update_ne map s _ _ bpf_any j apart,
  )

-- `ad_disable`: the word `nothing` is sent at each call.
unfoldable ad_disable : Option ℕ
ad_disable = some 0
