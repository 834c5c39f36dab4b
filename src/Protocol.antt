-- ===== src/Protocol.antt =====
-- c/protocol.c: the messages of the display queue and of the input queues. The fields that only
-- DISPLAY_FLUSH uses are left out: they hold a mutex and a condition variable.
use bash_agent.Base.{Bytes, Option, codes, if◌then◌else◌, none, pos, some, str_eq, ℤ}
use bash_agent.Store.Conversation.{or_empty}
use bash_agent.Transport.Events.{or_else}

-- DisplayMsgType
pub data DisplayType : Type 0 where
  text thinking tool_call tool_result usage stop failure : DisplayType
  sub_agent_result sub_agent_start async_task_result context_update flush user_notify : DisplayType

-- DisplayMessage
pub record DisplayMessage : Type 0 where
  pub type : DisplayType
  pub content : Option Bytes
  pub tool_name : Option Bytes
  pub tool_id : Option Bytes
  pub tool_input : Option Bytes
  pub tool_exit_code : ℤ
  pub in_tokens : ℤ
  pub out_tokens : ℤ
  pub cache_read_tokens : ℤ
  pub cache_creation_tokens : ℤ
  pub session_id : Option Bytes

-- memset(&m, 0, sizeof(m)), and the type
abbrev pub blank : DisplayType → DisplayMessage
blank t = record {
  type = t;
  content = none;
  tool_name = none;
  tool_id = none;
  tool_input = none;
  tool_exit_code = pos 0;
  in_tokens = pos 0;
  out_tokens = pos 0;
  cache_read_tokens = pos 0;
  cache_creation_tokens = pos 0;
  session_id = none;
}

abbrev pub display_msg_text : Option Bytes → DisplayMessage
display_msg_text s = record (blank text) { content = s }

abbrev pub display_msg_thinking : Option Bytes → DisplayMessage
display_msg_thinking s = record (blank thinking) { content = s }

abbrev pub display_msg_tool_call : Option Bytes → Option Bytes → Option Bytes → DisplayMessage
display_msg_tool_call id name input = record (blank tool_call) {
  content = input;
  tool_id = id;
  tool_name = name;
  tool_input = input;
}

abbrev pub display_msg_tool_result : Option Bytes → ℤ → DisplayMessage
display_msg_tool_result s exit_code = record (blank tool_result) {
  content = s;
  tool_exit_code = exit_code;
}

abbrev pub display_msg_usage : ℤ → ℤ → ℤ → ℤ → DisplayMessage
display_msg_usage in_tok out_tok cache_read cache_creation = record (blank usage) {
  in_tokens = in_tok;
  out_tokens = out_tok;
  cache_read_tokens = cache_read;
  cache_creation_tokens = cache_creation;
}

abbrev pub display_msg_stop : Option Bytes → DisplayMessage
display_msg_stop reason = record (blank stop) { content = reason }

abbrev pub display_msg_error : Option Bytes → DisplayMessage
display_msg_error s = record (blank failure) { content = s }

abbrev pub display_msg_sub_agent_start : Option Bytes → Option Bytes → DisplayMessage
display_msg_sub_agent_start sid desc = record (blank sub_agent_start) {
  session_id = sid;
  content = desc;
}

-- `tool_name` holds the thinking
abbrev pub display_msg_sub_agent_result :
    Option Bytes → Bytes → Option Bytes → Option Bytes → ℤ → ℤ → DisplayMessage
display_msg_sub_agent_result sid status thought reply in_tok out_tok =
    record (blank sub_agent_result) {
      session_id = sid;
      content = or_empty reply;
      tool_exit_code = if str_eq status (codes "ok") then pos 0 else pos 1;
      in_tokens = in_tok;
      out_tokens = out_tok;
      tool_name = or_empty thought;
    }

abbrev pub display_msg_async_task_result : Option Bytes → ℤ → Option Bytes → DisplayMessage
display_msg_async_task_result task_id exit_code output = record (blank async_task_result) {
  session_id = task_id;
  tool_exit_code = exit_code;
  content = or_empty output;
}

abbrev pub display_msg_user_notify : Option Bytes → DisplayMessage
display_msg_user_notify s = record (blank user_notify) { content = or_empty s }

-- `tool_name` holds the trigger
abbrev pub display_msg_context_update : Option Bytes → DisplayMessage
display_msg_context_update trigger = record (blank context_update) {
  tool_name = some (or_else trigger (codes "auto"));
}

-- what an InputMessage of the type MSG_AGENT_RESULT holds
pub record AgentResult : Type 0 where
  pub session_id : Bytes
  pub status : Bytes
  pub thinking : Option Bytes
  pub reply : Option Bytes
  pub in_tokens : ℤ
  pub out_tokens : ℤ
  pub cache_read_tokens : ℤ
  pub cache_creation_tokens : ℤ
  pub request_count : ℤ

-- InputMessage, with the fields that each type uses
pub data InputMessage : Type 0 where
  user_input : Option Bytes → InputMessage
  agent_result : AgentResult → InputMessage
  async_task_result : Bytes → ℤ → Option Bytes → InputMessage
  user_notify : Option Bytes → InputMessage
  notify_pending : InputMessage
