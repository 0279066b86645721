-- ===== src/RecordTasks/Busy.antt =====
-- Nothing is confirmed while a mutation is pending: a dialog is open only while none is.

use marc_comparator.Base.{◌≡◌, false, ◌&&◌, present}
use marc_comparator.Base.Text.{Text, text_eq}
use marc_comparator.RecordTasks.{State, is_busy}

unfoldable IsExclusive : State → Type 0
IsExclusive s = (present s.pending_dialog && is_busy s) ≡ false
