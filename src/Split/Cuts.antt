-- ===== src/Split/Cuts.antt =====
-- The rounds of `SplitTrade`, and the groups that they cut off.
use real_time_cr.Split.{ExtraDetails, reset_extra_details, get_extra_details, BcastMsg, refresh}
use real_time_cr.Split.Details.{ExtraDetails, get_extra_details, reset_extra_details}
use real_time_cr.Split.Origin.{Origin}
use real_time_cr.Message.{BcastMsg}
use real_time_cr.Split.Erase.{refresh}
