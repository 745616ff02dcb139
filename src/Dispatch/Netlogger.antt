-- ===== src/Dispatch/Netlogger.antt =====
-- services/dispatch/netlogger.go: the messages of the packet filter's log.
use Prim.Native.Char.{Char, code}
use packetd.Base.{ℕ, String, Option, ◌==◌, if◌then◌else◌}
use packetd.Base.Keys.{nat_key}
use packetd.Dispatch.State.{World, Subscriptions}
use packetd.Dispatch.SessionTable.{find_session}
use packetd.Dispatch.PriorityLoop.{LoopResult, call_all}

-- `NetloggerMessage`. The callback never writes its `Ctid`, which stays zero.
pub record NetloggerMessage : Type 0 where
  pub sessptr : Option ℕ
  pub version : ℕ
  pub protocol : ℕ
  pub icmp_type : ℕ
  pub src_interface : ℕ
  pub dst_interface : ℕ
  pub src_address : String
  pub dst_address : String
  pub src_port : ℕ
  pub dst_port : ℕ
  pub mark : ℕ
  pub ctid : ℕ
  pub prefix : String

abbrev double_quote : Char
double_quote = "\""

-- `strings.Replace(prefix, "'", "\"", -1)`
unfoldable pub replace_quotes : String → String
replace_quotes String.[] = String.[]
replace_quotes (String.◌∷◌ c s) =
    String.◌∷◌ (if code c == 39 then double_quote else c) (replace_quotes s)

-- `netloggerCallback`, on the arguments as a message that holds the raw prefix and the conntrack
-- id: the message of the handlers, and the calls.
unfoldable pub netlogger_callback :
    NetloggerMessage → World → NetloggerMessage × LoopResult Subscriptions
unfolding replace_quotes find_session
netlogger_callback args w = (
  record args { sessptr = find_session w args.ctid; ctid = 0; prefix = replace_quotes args.prefix },
  call_all w.netlogger_sub_list,
)
