-- ===== src/Router/Intent/Markers.antt =====
-- The marker tables of unica/router/internal/intent: classifier.go and stage.go.
use lurus_unica.Common.{List, [], ◌∷◌, map}
use lurus_unica.Common.Text.{Text, codes}

unfoldable pub escalation_markers : List Text
escalation_markers = map codes (
    "投诉" ∷ "曝光" ∷ "12315" ∷ "315晚会" ∷ "工商局" ∷ "工商部门" ∷ "消协" ∷ "消费者协会" ∷ "市场监管" ∷ "市监局" ∷ "监管部门"
    ∷ "律师" ∷ "起诉" ∷ "法院" ∷ "维权" ∷ "骗子" ∷ "欺诈" ∷ "坑人" ∷ "给差评" ∷ "打差评" ∷ "写差评" ∷ "去差评" ∷ [])

unfoldable pub harm_markers : List Text
harm_markers = map codes (
    "上吐下泻" ∷ "食物中毒" ∷ "吃坏了" ∷ "吃出" ∷ "过敏了" ∷ "住院" ∷ "急诊" ∷ "挂水" ∷ "拉肚子" ∷ "呕吐" ∷ "腹泻" ∷ "发现异物"
    ∷ "有异物" ∷ [])

unfoldable pub human_request_markers : List Text
human_request_markers =
    map codes ("转人工" ∷ "人工客服" ∷ "找人工" ∷ "转接人工" ∷ "真人客服" ∷ "是真人吗" ∷ "有真人吗" ∷ "真人在吗" ∷ [])

unfoldable pub personal_markers : List Text
personal_markers = map codes ("我的" ∷ "本人" ∷ "我买的" ∷ "我下的" ∷ "我付的" ∷ "我订的" ∷ [])

unfoldable pub personal_data_nouns : List Text
personal_data_nouns =
    map codes ("订单" ∷ "快递" ∷ "物流" ∷ "包裹" ∷ "单号" ∷ "运单" ∷ "进度" ∷ "发票" ∷ "余额" ∷ "账号" ∷ "账户" ∷ [])

unfoldable pub intent_markers : List Text
intent_markers = map codes ("我要" ∷ "我想要" ∷ "我需要" ∷ "帮我" ∷ "给我" ∷ "替我" ∷ "请帮" ∷ "麻烦帮" ∷ "我申请" ∷ [])

unfoldable pub action_nouns : List Text
action_nouns = map codes (
    "退款" ∷ "退货" ∷ "换货" ∷ "退换" ∷ "改地址" ∷ "收货地址" ∷ "寄件地址" ∷ "地址改" ∷ "取消" ∷ "催发货" ∷ "催单" ∷ "补发" ∷ "理赔"
    ∷ "开发票" ∷ "改单" ∷ "修改订单" ∷ "退钱" ∷ "报损" ∷ [])

unfoldable pub demand_phrases : List Text
demand_phrases = map codes ("要退款" ∷ "要退货" ∷ "要换货" ∷ "要退钱" ∷ "退钱" ∷ "要报损" ∷ [])

unfoldable pub hypothetical_markers : List Text
hypothetical_markers = map codes ("如果" ∷ "要是" ∷ "万一" ∷ "假如" ∷ "的话" ∷ [])

unfoldable pub question_markers : List Text
question_markers = map codes (
    "吗" ∷ "呢" ∷ "?" ∷ "？" ∷ "什么" ∷ "怎么" ∷ "如何" ∷ "多久" ∷ "几天" ∷ "多少" ∷ "哪些" ∷ "哪个" ∷ "是否" ∷ "能不能"
    ∷ "可不可以" ∷ "有没有" ∷ "支持不支持" ∷ "流程" ∷ [])

unfoldable pub consult_verbs : List Text
consult_verbs = map codes ("问一下" ∷ "问问" ∷ "想问" ∷ "要问" ∷ "咨询" ∷ "了解一下" ∷ "请教" ∷ "打听" ∷ [])

unfoldable pub fault_markers : List Text
fault_markers = map codes (
    "坏了" ∷ "碎了" ∷ "裂了" ∷ "漏了" ∷ "发霉了" ∷ "变质了" ∷ "过期了" ∷ "不亮" ∷ "开不了机" ∷ "连不上" ∷ "少发" ∷ "错发" ∷ "漏发"
    ∷ "没收到" ∷ "迟迟未到" ∷ "还没到货" ∷ "一直没到" ∷ "烂了" ∷ "是烂的" ∷ "是坏的" ∷ "馊了" ∷ "蔫了" ∷ "化冻" ∷ "化完了" ∷ "不见了"
    ∷ "少了" ∷ "送晚了" ∷ "冻坏了" ∷ "压坏了" ∷ "上吐下泻" ∷ "吃坏了" ∷ "过敏了" ∷ "食物中毒" ∷ "拉肚子" ∷ "腹泻" ∷ "呕吐" ∷ [])

unfoldable pub ownership_markers : List Text
ownership_markers = map codes (
    "我买的" ∷ "我收到" ∷ "收到的" ∷ "收到货" ∷ "已下单" ∷ "已付款" ∷ "买回来" ∷ "之前买" ∷ "上次买" ∷ "订单" ∷ "配货" ∷ "批货" ∷ [])

unfoldable pub aftersales_actions : List Text
aftersales_actions = map codes (
    "退货" ∷ "退款" ∷ "换货" ∷ "维修" ∷ "返修" ∷ "寄回" ∷ "售后" ∷ "三包" ∷ "理赔" ∷ "保修" ∷ "报损" ∷ "赔付" ∷ "索赔" ∷ "赔偿"
    ∷ "补偿" ∷ "补发" ∷ "退钱" ∷ [])

unfoldable pub price_markers : List Text
price_markers = map codes ("多少钱" ∷ "什么价" ∷ "价格" ∷ "贵不贵" ∷ "能便宜" ∷ "优惠" ∷ "有券" ∷ "包邮吗" ∷ [])

unfoldable pub comparison_markers : List Text
comparison_markers =
    map codes ("哪个好" ∷ "哪款" ∷ "区别" ∷ "差别" ∷ "对比" ∷ "值得买" ∷ "推荐" ∷ "怎么样" ∷ "好用吗" ∷ [])

unfoldable pub fit_markers : List Text
fit_markers =
    map codes
      ("适合" ∷ "能不能用" ∷ "支持吗" ∷ "尺码" ∷ "尺寸" ∷ "多大" ∷ "几寸" ∷ "容量" ∷ "参数" ∷ "多少斤" ∷ "几斤" ∷ "多重" ∷ [])

unfoldable pub availability_markers : List Text
availability_markers = map codes ("有货吗" ∷ "有现货" ∷ "现货吗" ∷ "什么时候上新" ∷ "能下单" ∷ "能不能下单" ∷ "能买到" ∷ [])
