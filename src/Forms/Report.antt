-- ===== src/Forms/Report.antt =====
-- The dialog of a bug report (assets/js/modules/dashboard/controllers/runtime/dashboardRuntimeDetailShell.js).
use robot_maintanance.Prelude.{
  String, Bool, true, false, not, ◌&&◌, Option, none, some, ◌===◌, if◌then◌else◌,
}
use robot_maintanance.Js.{Value, trim}
use robot_maintanance.Js.Engine.{Engine}
use robot_maintanance.Normalize.{clean, normalize_text}
use robot_maintanance.Forms.{
  Style, error, FormRequest, post_bug_report, FormReply, accepted, broken, refused,
}

-- The bug report: whether its dialog is open and a report is under way, its status and its text.
pub record BugReport : Type 0 where
  pub is_open : Bool
  pub is_submit_in_progress : Bool
  pub status : String × Option Style
  pub message : String

-- `openBugReportModal`
unfoldable pub open_bug_report : BugReport → BugReport
open_bug_report b = record {
  is_open = true;
  is_submit_in_progress = false;
  status = ("", none);
  message = "";
}

-- `closeBugReportModal`
unfoldable pub close_bug_report : Bool → BugReport → BugReport
close_bug_report force b =
    if b.is_submit_in_progress && not force
    then b
    else record b { is_open = false; status = ("", none); message = "" }

-- `submitBugReport`
unfoldable pub begin_bug_report : BugReport → BugReport × Option FormRequest
begin_bug_report b =
    let text = trim (clean b.message "") in
    if b.is_submit_in_progress
    then (b, none)
    else if text === ""
    then (record b { status = ("Please describe the bug before submitting.", some error) }, none)
    else (
      record b { is_submit_in_progress = true; status = ("", none) },
      some (post_bug_report text),
    )

-- `detail` is the field `detail` of the answer, where it can be parsed.
abbrev report_status : Engine → Value → FormReply → BugReport → BugReport
unfolding close_bug_report
report_status js detail accepted b = close_bug_report true b
report_status js detail (refused raw) b = record b {
  status = (
    normalize_text js detail (if raw === "" then "Unable to save bug report." else raw),
    some error,
  );
}
report_status js detail broken b = record b {
  status = ("Unable to submit bug report right now.", some error);
}

unfoldable pub end_bug_report : Engine → Value → FormReply → BugReport → BugReport
unfolding report_status
end_bug_report js detail reply b = record (report_status js detail reply b) {
  is_submit_in_progress = false;
}
