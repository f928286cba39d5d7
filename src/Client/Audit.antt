-- ===== src/Client/Audit.antt =====
-- `client_audit_record` of agents/linux/client_audit.h, without the lines that it prints.
use tlslatch.Base.{[], ◌∷◌, ◌++◌, true, leb, if◌then◌else◌, length}
use tlslatch.Client.State.{GateFlow, ClientAudit, Agent, Env}

unfoldable pub client_audit_record : Env → GateFlow → ClientAudit → ClientAudit
client_audit_record env gate audit =
    if leb audit.capacity (length audit.items)
    then record audit { failed = true }
    else record audit {
      items =
          audit.items
          ++ record {
            ch = gate.lookup_key;
            sh = gate.report_key;
            mono = gate.state_ns;
            utc = env.wall_clock;
          }
            ∷ [];
    }

abbrev pub fail_audit : Agent → Agent
fail_audit agent = record agent { audit = record (agent.audit) { failed = true } }
