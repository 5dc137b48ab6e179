-- ===== src/Notify/Email.antt =====
-- notify/email.go: the subject and the plain text of a mail. Composing and sending it by SMTP is
-- go-mail's, and enters as a function that says whether the mail was sent.
use weops_inspect.Prelude.{
  ℕ, ◌-◌, Bool, not, List, [], ◌∷◌, ◌++◌, if◌then◌else◌, length, replicate, is_empty, pos, Str,
  codes, str_eq, str_lt,
}
use weops_inspect.Decimal.{itoa}
use weops_inspect.Model.{CheckSummary, InspectReport}
use weops_inspect.Notify.Alerts.{AlertItem}

-- What Send is given.
pub record Mail : Type 0 where
  pub subject : Str
  pub body : Str
  pub html_body : Str
  pub attachment_path : Str

-- %d of a count
abbrev pub count_text : ℕ → Str
count_text n = itoa (pos n)

unfoldable pub build_alert_subject : CheckSummary → Str
unfolding itoa
build_alert_subject s =
    codes "[WeOps 巡检告警] "
    ++ count_text s.warn_count
    ++ codes "/"
    ++ count_text s.total
    ++ codes " 项异常"

unfoldable pub build_recovery_subject : CheckSummary → Str
unfolding itoa
build_recovery_subject s = codes "[WeOps 巡检恢复] 全部正常 (" ++ count_text s.total ++ codes " 项检查)"

-- The order of the lines: by host, then by field.
unfoldable pub item_less : AlertItem → AlertItem → Bool
item_less a b = if not (str_eq a.host b.host) then str_lt a.host b.host else str_lt a.field b.field

unfoldable pub item_insert : AlertItem → List AlertItem → List AlertItem
unfolding item_less
item_insert a [] = a ∷ []
item_insert a (b ∷ bs) = if item_less b a then b ∷ item_insert a bs else a ∷ b ∷ bs

-- sort.Slice, which leaves the order of items with the same host and field open.
unfoldable pub sort_items : List AlertItem → List AlertItem
unfolding item_insert
sort_items [] = []
sort_items (a ∷ items) = item_insert a (sort_items items)

-- %-<n>s
unfoldable pub pad_right : ℕ → Str → Str
unfolding replicate
pad_right n s = s ++ replicate (n - length s) b' '

unfoldable pub alert_line : AlertItem → Str
unfolding pad_right
alert_line it =
    codes "  "
    ++ pad_right 16 (if is_empty it.host then codes "-" else it.host)
    ++ codes " "
    ++ pad_right 40 it.field
    ++ codes " = "
    ++ it.value
    ++ (if is_empty it.threshold then [] else codes "  (阈值 " ++ it.threshold ++ codes ")")
    ++ 10 ∷ []

unfoldable pub alert_lines : List AlertItem → Str
unfolding alert_line
alert_lines [] = []
alert_lines (a ∷ items) = alert_line a ++ alert_lines items

module _ {F : Type 0} where
  unfoldable pub build_alert_body : InspectReport F → List AlertItem → Str
  unfolding itoa alert_lines sort_items
  build_alert_body report items =
      codes "[WeOps 巡检告警] "
      ++ report.timestamp
      ++ codes "\nSummary: 共 "
      ++ count_text report.summary.total
      ++ codes " 项检查，"
      ++ count_text report.summary.ok_count
      ++ codes " 正常，"
      ++ count_text report.summary.warn_count
      ++ codes " 告警，"
      ++ count_text report.summary.unknown_count
      ++ codes " 未知\n\n告警明细:\n"
      ++ alert_lines (sort_items items)
      ++ codes "\n详见附件 weops_inspection.html。\n"

  unfoldable pub build_recovery_body : InspectReport F → Str
  unfolding itoa
  build_recovery_body report =
      codes "[WeOps 巡检恢复] "
      ++ report.timestamp
      ++ codes "\n\n所有检查项已恢复正常 (共 "
      ++ count_text report.summary.total
      ++ codes " 项)。详见附件。\n"
